-- ===== src/Prelude/Result.antt =====
-- Python code that returns a value or raises. An exception is its class and its message; where a
-- message ends in the `repr` of a value, the model keeps the part before it. `v2_unauthorized` is a
-- `V2ClientError` of status 401, `v2_unavailable` a `V2Unavailable`, `v2_error` any other
-- `V2ClientError`, and `os_error` an `OSError`, such as a `FileNotFoundError`.
use Prim.Native.String.{String}
use mathlib.Core.Path.{◌≡◌, refl}
use mathlib.Core.Logic.{◌⊎◌, inl, inr}
use mathlib.Core.Bool.{Bool, true, false}
use mathlib.Core.Option.{Option, none, some}

pub data Error : Type 0 where
  value_error : String → Error
  key_error : String → Error
  permission_error : String → Error
  type_error : String → Error
  v2_error : String → Error
  authorization_error : String → Error
  v2_unavailable : String → Error
  v2_unauthorized : String → Error
  attribute_error : String → Error
  os_error : String → Error

pub data Result {ℓ} (A : Type ℓ) : Type ℓ where
  err : Error → Result A
  ok : A → Result A

-- The outcome of a `validate` method, which returns nothing.
abbrev pub Check : Type 0
Check = Result (Unit {0})

infixl 10 ◌>>=◌ ◌>>◌
abbrev pub ◌>>=◌ {ℓ κ} : {V : Type ℓ} {W : Type κ} → Result V → (V → Result W) → Result W
err raised >>= next = err raised
ok value >>= next = next value

abbrev pub ◌>>◌ {ℓ} : {B : Type ℓ} → Check → Result B → Result B
ok u >> k = k
err e >> k = err e

-- `if bad: raise error`
abbrev pub raise_if : Bool → Error → Check
raise_if true e = err e
raise_if false e = ok tt

-- `if not good: raise error`
abbrev pub require : Bool → Error → Check
require true e = ok tt
require false e = err e

-- `if value is not None: check(value)`
abbrev pub if_given {ℓ} : {A : Type ℓ} → Option A → (A → Check) → Check
if_given none f = ok tt
if_given (some a) f = f a

-- A successful sequence has two successful parts.
pub >>-eq-ok {ℓ} :
    {B : Type ℓ} (m : Check) (k : Result B) {b : B} → (m >> k) ≡ ok b → (m ≡ ok tt) × (k ≡ ok b)
>>-eq-ok (ok u) k h = (refl, h)
>>-eq-ok (err e) k h = cc

pub require-eq-ok : (b : Bool) (e : Error) → require b e ≡ ok tt → b ≡ true
require-eq-ok true e h = refl
require-eq-ok false e h = cc

pub raise_if-eq-ok : (b : Bool) (e : Error) → raise_if b e ≡ ok tt → b ≡ false
raise_if-eq-ok true e h = cc
raise_if-eq-ok false e h = refl

pub if_given-eq-ok {ℓ} :
    {A : Type ℓ} (o : Option A) (f : A → Check) (a : A)
    → if_given o f ≡ ok tt
    → o ≡ some a
    → f a ≡ ok tt
if_given-eq-ok none f a h e = cc
if_given-eq-ok (some b) f a h e = cc

-- A successful `>>=` has a first part that returns a value, and a second that succeeds on it.
pub >>=-eq-ok {ℓ κ} :
    {V : Type ℓ} {W : Type κ} (first : Result V) (next : V → Result W) {w : W}
    → (first >>= next) ≡ ok w
    → (value : V) × (first ≡ ok value) × (next value ≡ ok w)
>>=-eq-ok (err raised) next h = cc
>>=-eq-ok (ok value) next h = (value, refl, h)

pub Result-cases {ℓ} :
    {A : Type ℓ} (r : Result A) → ((a : A) × (r ≡ ok a)) ⊎ ((e : Error) × (r ≡ err e))
Result-cases (ok a) = inl (a, refl)
Result-cases (err e) = inr (e, refl)

pub ok_inj {ℓ} : {A : Type ℓ} (a b : A) → ok a ≡ ok b → a ≡ b
ok_inj a b h = cc
