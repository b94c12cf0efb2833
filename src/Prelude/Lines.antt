-- ===== src/Prelude/Lines.antt =====
-- `str.splitlines`, `str.split` on one character, and the slices that a patch reader uses.
use Prim.Native.Nat.{ℕ, zero, suc}
use Prim.Native.Char.{Char, code}
use Prim.Native.String.{String}
use mathlib.Core.Bool.{Bool, false, ◌&&◌, ◌||◌}
use mathlib.Core.List.{List, [], ◌∷◌}
use agentic_rtlto_gds_design.Prelude.Tests.{eqb, if◌then◌else◌}
use agentic_rtlto_gds_design.Prelude.Text.{in_range}

abbrev pub prepend : Char → List String → List String
prepend c [] = String.◌∷◌ c String.[] ∷ []
prepend c (w ∷ words) = String.◌∷◌ c w ∷ words

-- `s.split(sep)` for a separator of one character
unfoldable pub split : ℕ → String → List String
split sep String.[] = String.[] ∷ []
split sep (String.◌∷◌ c s) =
    let rest = split sep s in if eqb (code c) sep then String.[] ∷ rest else prepend c rest

-- `s.split(sep, 1)[0]`
unfoldable pub take_until : ℕ → String → String
take_until sep String.[] = String.[]
take_until sep (String.◌∷◌ c s) =
    let rest = take_until sep s in if eqb (code c) sep then String.[] else String.◌∷◌ c rest

-- `s[n:]`
unfoldable pub drop_chars : ℕ → String → String
drop_chars zero s = s
drop_chars (suc n) String.[] = String.[]
drop_chars (suc n) (String.◌∷◌ c s) = drop_chars n s

-- The characters at which `splitlines` ends a line.
abbrev pub is_line_break : ℕ → Bool
is_line_break c = in_range 10 13 c || in_range 28 30 c || eqb c 0x85 || eqb c 0x2028 || eqb c 0x2029

-- The flag tells that the last character was a carriage return, which a line feed joins.
unfoldable pub lines_after : Bool → String → List String
lines_after returned String.[] = []
lines_after returned (String.◌∷◌ c s) =
    let rest = lines_after (eqb (code c) 13) s in
    if returned && eqb (code c) 10
    then rest
    else if is_line_break (code c)
    then String.[] ∷ rest
    else prepend c rest

-- `s.splitlines()`
unfoldable pub splitlines : String → List String
unfolding lines_after
splitlines s = lines_after false s

-- `c in s` for one character
unfoldable pub has_char : ℕ → String → Bool
has_char k String.[] = false
has_char k (String.◌∷◌ c s) = eqb (code c) k || has_char k s
