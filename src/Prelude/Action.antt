-- ===== src/Prelude/Action.antt =====
-- A method of an object: it takes the attributes, and returns a value or raises. What was written
-- before a raise stays written, so the attributes come back beside an error too.
use mathlib.Core.Path.{◌≡◌, refl}
use mathlib.Core.Bool.{Bool, true, false}
use mathlib.Core.Option.{Option, none, some}
use agentic_rtlto_gds_design.Prelude.Tests.{if◌then◌else◌}
use agentic_rtlto_gds_design.Prelude.Result.{Error, Result, ok, err}

abbrev pub Action {ℓ κ} : Type ℓ → Type κ → Type (ℓ ⊔ κ)
Action S A = S → Result A × S

module _ {ℓ κ} {S : Type ℓ} {A : Type κ} where
  abbrev pub pure : A → Action S A
  pure a s = (ok a, s)

  abbrev pub raise : Error → Action S A
  raise e s = (err e, s)

  abbrev pub lift : Result A → Action S A
  lift r s = (r, s)

  abbrev pub gets : (S → A) → Action S A
  gets f s = (ok (f s), s)

  abbrev pub or_raise : Option A → Error → Action S A
  or_raise none e s = (err e, s)
  or_raise (some a) e s = (ok a, s)

module _ {ℓ} {S : Type ℓ} where
  abbrev pub modify : (S → S) → Action S (Unit {0})
  modify f s = (ok tt, f s)

  abbrev pub raise_when : Bool → Error → Action S (Unit {0})
  raise_when true e s = (err e, s)
  raise_when false e s = (ok tt, s)

  abbrev pub raise_unless : Bool → Error → Action S (Unit {0})
  raise_unless true e s = (ok tt, s)
  raise_unless false e s = (err e, s)

abbrev pub continue {ℓ κ μ} :
    {S : Type ℓ} {A : Type κ} {B : Type μ} → Result A → (A → Action S B) → Action S B
continue (ok a) f s = f a s
continue (err e) f s = (err e, s)

infixl 10 ◌>>=◌ ◌>>◌
abbrev pub ◌>>=◌ {ℓ κ μ} :
    {S : Type ℓ} {A : Type κ} {B : Type μ} → Action S A → (A → Action S B) → Action S B
◌>>=◌ m f s = let (r, t) = m s in continue r f t

abbrev pub ◌>>◌ {ℓ κ μ} :
    {S : Type ℓ} {A : Type κ} {B : Type μ} → Action S A → Action S B → Action S B
m >> k = m >>= λ _. k

-- A predicate on the attributes that holds after each way an action can end.
module _ {ℓ κ μ π} {S : Type ℓ} {A : Type κ} {B : Type μ} (P : S → Type π) where
  pub lift_state :
      (r : Result A) (f : A → Action S B) (s : S)
      → P s
      → ((a : A) → r ≡ ok a → P (f a s).1)
      → P (continue r f s).1
  lift_state (ok a) f s h k = k a refl
  lift_state (err e) f s h k = h

  pub bind_state :
      (m : Action S A) (f : A → Action S B) (s : S)
      → P (m s).1
      → ((a : A) → (m s).0 ≡ ok a → P (f a (m s).1).1)
      → P ((m >>= f) s).1
  bind_state m f s h k = lift_state (m s).0 f (m s).1 h k

module _ {ℓ μ π} {S : Type ℓ} {B : Type μ} (P : S → Type π) where
  pub unless_state :
      (b : Bool) (e : Error) (k : Action S B) (s : S)
      → P s
      → (b ≡ true → P (k s).1)
      → P ((raise_unless b e >> k) s).1
  unless_state true e k s h g = g refl
  unless_state false e k s h g = h

  pub when_state :
      (b : Bool) (e : Error) (k : Action S B) (s : S)
      → P s
      → (b ≡ false → P (k s).1)
      → P ((raise_when b e >> k) s).1
  when_state true e k s h g = h
  when_state false e k s h g = g refl

  pub if_state :
      (b : Bool) (m k : Action S B) (s : S) → P (m s).1 → P (k s).1 → P ((if b then m else k) s).1
  if_state true m k s h g = h
  if_state false m k s h g = g
