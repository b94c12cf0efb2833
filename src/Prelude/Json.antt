-- ===== src/Prelude/Json.antt =====
-- JSON documents, the Python values `Any` that a record of the program carries or is turned into.
-- A float is the dyadic number `mantissa * 2 ^ exponent`, an infinity or NaN, as in IEEE 754.
use Prim.Native.Nat.{ℕ, suc, ◌*◌, ◌^◌}
use Prim.Native.String.{String}
use mathlib.Core.Bool.{Bool, true, false, ◌&&◌}
use mathlib.Core.List.{List, [], ◌∷◌}
use mathlib.Core.Option.{Option, none, some}
use agentic_rtlto_gds_design.Prelude.Tests.{leb, eqb}

-- `negsuc n` is -(n + 1).
pub data ℤ : Type 0 where
  pos : ℕ → ℤ
  negsuc : ℕ → ℤ

-- `n == m`
abbrev pub is_int : ℕ → ℤ → Bool
is_int n (pos m) = eqb m n
is_int n (negsuc m) = false

-- `lo <= n <= hi`
abbrev pub int_in_range : ℕ → ℕ → ℤ → Bool
int_in_range lo hi (pos n) = leb lo n && leb n hi
int_in_range lo hi (negsuc n) = false

-- `n > 0`
abbrev pub is_positive : ℤ → Bool
is_positive (pos n) = leb 1 n
is_positive (negsuc n) = false

pub data Float : Type 0 where
  finite : ℤ → ℤ → Float
  infinity minus_infinity nan : Float

-- `n <= x`
abbrev pub le_float : ℕ → Float → Bool
le_float n (finite (pos m) (pos e)) = leb n (m * 2 ^ e)
le_float n (finite (pos m) (negsuc e)) = leb (n * 2 ^ suc e) m
le_float n (finite (negsuc m) e) = false
le_float n infinity = true
le_float n minus_infinity = false
le_float n nan = false

-- `x <= n`
abbrev pub float_le : Float → ℕ → Bool
float_le (finite (pos m) (pos e)) n = leb (m * 2 ^ e) n
float_le (finite (pos m) (negsuc e)) n = leb m (n * 2 ^ suc e)
float_le (finite (negsuc m) e) n = true
float_le infinity n = false
float_le minus_infinity n = true
float_le nan n = false

mutual
  pub data Json : Type 0 where
    null : Json
    bool : Bool → Json
    int : ℤ → Json
    float : Float → Json
    str : String → Json
    arr : Items → Json
    obj : Fields → Json

  pub data Items : Type 0 where
    nil : Items
    cons : Json → Items → Items

  pub data Fields : Type 0 where
    end : Fields
    field : String → Json → Fields → Fields

abbrev pub text_items : List String → Items
text_items [] = nil
text_items (t ∷ ts) = cons (str t) (text_items ts)

-- A list of strings as a JSON array.
abbrev pub texts : List String → Json
texts ts = arr (text_items ts)

-- `None` as `null`.
abbrev pub optional_text : Option String → Json
optional_text none = null
optional_text (some s) = str s
