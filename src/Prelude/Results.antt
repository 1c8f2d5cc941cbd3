-- ===== src/Prelude/Results.antt =====
-- Python's exceptions as values: `Result` for pure code, and `Exec` for methods that change state.
-- What a method wrote before it raised stays written, so `Exec` returns the state on both paths.
use Prim.Native.Nat.{ℕ}
use mathlib.Core.Path.{◌≡◌, refl}
use mathlib.Core.Logic.{◌⊎◌, inl, inr}
use mathlib.Core.Bool.{Bool, true, false}

-- The exception classes that the modelled code raises; their messages are not modelled.
-- `service_error n` is an error of the storage service with `status_code` n.
pub data Fault : Type 0 where
  value_error key_error type_error runtime_error : Fault
  lease_error verification_error lifecycle_error : Fault
  service_error : ℕ → Fault

pub data Result {ℓ} (A : Type ℓ) : Type ℓ where
  err : Fault → Result A
  ok : A → Result A

infixl 5 ◌>>=◌ ◌>>◌
abbrev pub is_ok {ℓ} : {A : Type ℓ} → Result A → Bool
is_ok (ok a) = true
is_ok (err e) = false

-- The rest of a method runs unless an exception was raised.
abbrev pub ◌>>=◌ {ℓ κ} : {A : Type ℓ} → {B : Type κ} → Result A → (A → Result B) → Result B
err raised >>= rest = err raised
ok value >>= rest = rest value

-- `if c: raise e`
abbrev pub raise_if : Bool → Fault → Result (Unit {0})
raise_if false e = ok tt
raise_if true e = err e

abbrev pub ◌>>◌ {κ} : {B : Type κ} → Result (Unit {0}) → Result B → Result B
first >> second = first >>= λ done. second

-- A method that returned ran its first part and then its rest.
pub >>=-eq-ok {ℓ κ} :
    {A : Type ℓ}
    → {B : Type κ} → (first : Result A) → (rest : A → Result B) → {b : B} → (first >>= rest) ≡ ok b
    → (a : A) × (first ≡ ok a) × (rest a ≡ ok b)
>>=-eq-ok (err raised) rest returned = cc
>>=-eq-ok (ok value) rest returned = (value, refl, returned)

pub raise_if-eq-ok : (c : Bool) (e : Fault) {u : Unit {0}} → raise_if c e ≡ ok u → c ≡ false
raise_if-eq-ok true e h = cc
raise_if-eq-ok false e h = refl

pub Result-cases {ℓ} :
    {A : Type ℓ} (r : Result A) → ((a : A) × (r ≡ ok a)) ⊎ ((e : Fault) × (r ≡ err e))
Result-cases (ok a) = inl (a, refl)
Result-cases (err e) = inr (e, refl)

-- A guard that was passed.
pub passed {ℓ} :
    {B : Type ℓ} (c : Bool) (e : Fault) (m : Result B) {b : B}
    → (raise_if c e >> m) ≡ ok b
    → (c ≡ false) × (m ≡ ok b)
passed true e m h = cc
passed false e m h = (refl, h)
