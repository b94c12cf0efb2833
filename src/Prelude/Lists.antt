-- ===== src/Prelude/Lists.antt =====
-- Tests on lists of strings, and what they mean.
use Prim.Native.Nat.{ℕ, suc}
use Prim.Native.String.{String}
use mathlib.Core.Path.{◌≡◌}
use mathlib.Core.Bool.{Bool, true, false, not, ◌&&◌, ◌||◌}
use mathlib.Core.Logic.{◌⊎◌}
use mathlib.Core.List.{List, [], ◌∷◌}
use native.Mathlib.Omega.{arith}
use text.Mathlib.Text.{◌==◌}
use text.Mathlib.TextEquality.{eq_iff}
use agentic_rtlto_gds_design.Prelude.Tests.{&&-eq-true}
use agentic_rtlto_gds_design.Prelude.Result.{Check, ok, ◌>>◌}

module _ {ℓ} {A : Type ℓ} where
  abbrev pub length : List A → ℕ
  length [] = 0
  length (x ∷ xs) = suc (length xs)

  -- `all(p(x) for x in xs)`
  abbrev pub all : (A → Bool) → List A → Bool
  all p [] = true
  all p (x ∷ xs) = p x && all p xs

  -- `any(p(x) for x in xs)`
  abbrev pub any : (A → Bool) → List A → Bool
  any p [] = false
  any p (x ∷ xs) = p x || any p xs

  -- `not xs`
  abbrev pub null : List A → Bool
  null [] = true
  null (x ∷ xs) = false

  -- `for x in xs: check(x)`
  unfoldable pub for_each : List A → (A → Check) → Check
  for_each [] f = ok tt
  for_each (x ∷ xs) f = f x >> for_each xs f

-- `x in xs`
abbrev pub elem : String → List String → Bool
elem x [] = false
elem x (y ∷ ys) = (y == x) || elem x ys

-- `len(set(xs)) == len(xs)`
abbrev pub distinct : List String → Bool
distinct [] = true
distinct (x ∷ xs) = not (elem x xs) && distinct xs

-- Every element of a list satisfies a predicate.
abbrev pub All {ℓ κ} : {A : Type ℓ} → (A → Type κ) → List A → Type κ
All P [] = Unit
All P (x ∷ xs) = P x × All P xs

-- A loop that checks every element and returns has checked each of them.
pub for_each-All {ℓ} :
    {A : Type ℓ} (f : A → Check) (xs : List A) → for_each xs f ≡ ok tt → All (λ x. f x ≡ ok tt) xs
unfolding for_each
for_each-All f [] h = tt
for_each-All f (x ∷ xs) h = ground (arith, for_each-All f xs)

-- `x` stands in `xs`.
abbrev pub Occurs : String → List String → Type 0
Occurs x [] = ⊥
Occurs x (y ∷ ys) = (y ≡ x) ⊎ Occurs x ys

-- No two elements are equal.
abbrev pub IsDistinct : List String → Type 0
IsDistinct [] = Unit
IsDistinct (x ∷ xs) = (¬ Occurs x xs) × IsDistinct xs

pub elem→Occurs : (x : String) (xs : List String) → elem x xs ≡ true → Occurs x xs
elem→Occurs x [] h = cc
elem→Occurs x (y ∷ ys) h = ground (arith, eq_iff y x, elem→Occurs x ys)

pub Occurs→elem : (x : String) (xs : List String) → Occurs x xs → elem x xs ≡ true
Occurs→elem x [] h = absurd h
Occurs→elem x (y ∷ ys) h = ground (arith, eq_iff y x, Occurs→elem x ys)

pub distinct→IsDistinct : (xs : List String) → distinct xs ≡ true → IsDistinct xs
distinct→IsDistinct [] h = tt
distinct→IsDistinct (x ∷ xs) h =
    let (a, b) = &&-eq-true (not (elem x xs)) (distinct xs) h in
    ((λ o. ground (arith, Occurs→elem x xs o)), distinct→IsDistinct xs b)
