-- ===== src/Errors.antt =====
-- src/spinev_ble/exceptions.py: the package's errors, the other exceptions that its code lets
-- through or catches, and the result of code that may raise. Messages are left out.
use spinev_ble.Base.{Bool, true, false, ◌≡◌, refl, ◌⊎◌, inl, inr}

-- The direct subclasses of `SpinEvError`.
pub data SpinEvError : Type 0 where
  connection_error timeout_error protocol_error password_error command_rejected_error : SpinEvError
  busy_error unsupported_error type_error value_error : SpinEvError

-- What a `raise` can carry: a package error, or one of Python's own.
pub data Exception : Type 0 where
  spinev : SpinEvError → Exception
  builtin_value_error struct_error builtin_timeout_error other_exception : Exception

-- `except SpinEvError`.
abbrev pub is_spinev : Exception → Bool
is_spinev (spinev e) = true
is_spinev _ = false

pub data Result {ℓ} (A : Type ℓ) : Type ℓ where
  ok : A → Result A
  err : Exception → Result A

infixl 5 ◌>>=◌ ◌>>◌
abbrev pub ◌>>=◌ {ℓ κ} : {A : Type ℓ} {C : Type κ} → Result A → (A → Result C) → Result C
err e >>= next = err e
ok x >>= next = next x

-- A check, and what comes behind it.
abbrev pub ◌>>◌ {ℓ} : {C : Type ℓ} → Result (Unit {0}) → Result C → Result C
check >> rest = check >>= λ _. rest

abbrev pub raise {ℓ} : {A : Type ℓ} → SpinEvError → Result A
raise e = err (spinev e)

-- `if not test: raise e`.
abbrev pub require : Bool → SpinEvError → Result (Unit {0})
require true e = ok tt
require false e = raise e

pub Result-cases {ℓ} :
    {A : Type ℓ} (r : Result A) → ((a : A) × (r ≡ ok a)) ⊎ ((e : Exception) × (r ≡ err e))
Result-cases (ok a) = inl (a, refl)
Result-cases (err e) = inr (e, refl)
