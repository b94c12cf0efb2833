-- ===== src/Prelude/Text.antt =====
-- The methods of `str` that the program uses, and the shapes of its identifiers and digests.
-- A string is its code points; lengths count code points, as `len` does.
use Prim.Native.Nat.{ℕ, zero, suc}
use Prim.Native.Char.{code}
use Prim.Native.String
use Prim.Native.String.{String}
use mathlib.Core.Bool.{Bool, true, false, ◌&&◌, ◌||◌}
use mathlib.Core.Option.{Option, none, some}
use text.Mathlib.Text.{◌==◌, starts_with}
use agentic_rtlto_gds_design.Prelude.Tests.{leb, eqb, if◌then◌else◌}

-- `len(s)`
unfoldable pub text_length : String → ℕ
text_length String.[] = zero
text_length (String.◌∷◌ c s) = suc (text_length s)

-- `all(p(c) for c in s)`
unfoldable pub all_chars : (ℕ → Bool) → String → Bool
all_chars p String.[] = true
all_chars p (String.◌∷◌ c s) = p (code c) && all_chars p s

abbrev pub in_range : ℕ → ℕ → ℕ → Bool
in_range lo hi c = leb lo c && leb c hi

-- `str.isspace` of one code point
pub is_space : ℕ → Bool
is_space c =
    in_range 9 13 c
    || in_range 28 32 c
    || eqb c 0x85
    || eqb c 0xa0
    || eqb c 0x1680
    || in_range 0x2000 0x200a c
    || in_range 0x2028 0x2029 c
    || eqb c 0x202f
    || eqb c 0x205f
    || eqb c 0x3000

-- `not s.strip()`
unfoldable pub is_blank : String → Bool
unfolding all_chars is_space
is_blank s = all_chars is_space s

unfoldable pub is_alnum : ℕ → Bool
is_alnum c = in_range b'0' b'9' c || in_range b'A' b'Z' c || in_range b'a' b'z' c

-- `[A-Za-z0-9_.:-]`
unfoldable pub is_id_char : ℕ → Bool
unfolding is_alnum
is_id_char c = is_alnum c || eqb c b'_' || eqb c b'.' || eqb c b':' || eqb c b'-'

-- `[0-9a-f]`
pub is_hex_char : ℕ → Bool
is_hex_char c = in_range b'0' b'9' c || in_range b'a' b'f' c

-- `^[A-Za-z0-9][A-Za-z0-9_.:-]{0,127}$`
unfoldable pub is_identifier : String → Bool
unfolding is_alnum is_id_char all_chars text_length
is_identifier String.[] = false
is_identifier (String.◌∷◌ c s) =
    is_alnum (code c) && all_chars is_id_char s && leb (text_length s) 127

-- `^[0-9a-f]{64}$`
unfoldable pub is_sha256 : String → Bool
unfolding is_hex_char all_chars text_length
is_sha256 s = eqb (text_length s) 64 && all_chars is_hex_char s

-- `s.removeprefix(p)`
unfoldable pub remove_prefix : String → String → String
remove_prefix s p = if starts_with s p then String.slice s (String.len p) (String.len s) else s

-- `s.endswith(t)`
unfoldable pub ends_with : String → String → Bool
ends_with String.[] t = String.[] == t
ends_with (String.◌∷◌ c s) t = (String.◌∷◌ c s == t) || ends_with s t

-- `s.removesuffix(t)`
unfoldable pub remove_suffix : String → String → String
remove_suffix String.[] t = String.[]
remove_suffix (String.◌∷◌ c s) t =
    if String.◌∷◌ c s == t then String.[] else String.◌∷◌ c (remove_suffix s t)

-- `"/" in s`
unfoldable pub has_slash : String → Bool
has_slash String.[] = false
has_slash (String.◌∷◌ c s) = eqb (code c) b'/' || has_slash s

-- `s.rsplit(sep, 1)`, where `sep` stands in `s`
unfoldable pub rsplit_once : String → String → Option (String × String)
unfolding remove_prefix
rsplit_once String.[] sep = none
rsplit_once (String.◌∷◌ c s) sep = elim (rsplit_once s sep) [
  | some (before, after) ↦ some (String.◌∷◌ c before, after)
  | none ↦
      if starts_with (String.◌∷◌ c s) sep
      then some (String.[], remove_prefix (String.◌∷◌ c s) sep)
      else none
]

-- `not s`
abbrev pub is_empty : String → Bool
is_empty s = s == ""

-- `s + t`, and the parts of an f-string
infixr 65 ◌<>◌
abbrev pub ◌<>◌ : String → String → String
s <> t = String.◌++◌ s t
