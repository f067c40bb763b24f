-- ===== src/Prelude/Results.antt =====
-- Code that may raise: a result is a value or the class of the exception raised.
-- The message of an exception is not modelled.
use mathlib.Core.Path.{◌≡◌, refl}
use mathlib.Core.Logic.{◌⊎◌, inl, inr}
use mathlib.Core.Bool.{Bool, true, false}

-- Python's exception classes, as far as the modelled code raises or catches them.
pub data Error : Type 0 where
  state_transition_error replay_blocked stale_revision assertion_error : Error
  storage_conflict storage_not_found value_error key_error type_error : Error
  manifest_validation_error receipt_validation_error registry_validation_error : Error
  broker_contract_error submission_rejected worker_error dispatch_error : Error
  projection_error observation_validation_error : Error
  webauthn_authorization_error overflow_error : Error

-- A value that was returned, or the class of what was raised.
pub data Result {ℓ} (A : Type ℓ) : Type ℓ where
  err : Error → Result A
  ok : A → Result A

-- `if not b: raise e`
abbrev pub guard : Bool → Error → Result (Unit {0})
guard true e = ok tt
guard false e = err e

-- `if b: raise e`
abbrev pub raise_if : Bool → Error → Result (Unit {0})
raise_if true e = err e
raise_if false e = ok tt

-- The classes that `except ValueError` catches, and those that `except (ValueError, KeyError)` does.
abbrev pub is_value_error : Error → Bool
is_value_error assertion_error = false
is_value_error storage_conflict = false
is_value_error storage_not_found = false
is_value_error key_error = false
is_value_error type_error = false
is_value_error worker_error = false
is_value_error dispatch_error = false
is_value_error overflow_error = false
is_value_error _ = true

abbrev pub is_value_or_key_error : Error → Bool
is_value_or_key_error storage_not_found = true
is_value_or_key_error key_error = true
is_value_or_key_error e = is_value_error e

-- `try: ... except caught: raise e`
abbrev pub raise_as {ℓ} : {A : Type ℓ} → (Error → Bool) → Error → Result A → Result A
raise_as caught e (ok a) = ok a
raise_as caught e (err x) = elim (caught x) [ true ↦ err e | false ↦ err x ]

-- One statement after another: an exception skips the rest.
infixl 5 ◌>>=◌ ◌>>◌
abbrev pub ◌>>=◌ {ℓ κ} : {A : Type ℓ} {B : Type κ} → Result A → (A → Result B) → Result B
err raised >>= rest = err raised
ok returned >>= rest = rest returned

abbrev pub ◌>>◌ {ℓ κ} : {A : Type ℓ} {B : Type κ} → Result A → Result B → Result B
first >> rest = first >>= λ _. rest

pub Result-cases {ℓ} :
    {A : Type ℓ} (m : Result A) → ((a : A) × (m ≡ ok a)) ⊎ ((e : Error) × (m ≡ err e))
Result-cases (ok a) = inl (a, refl)
Result-cases (err e) = inr (e, refl)

-- Inversion of a successful chain.
pub >>=-eq-ok {ℓ κ} :
    {A : Type ℓ} {B : Type κ} (first : Result A) (rest : A → Result B) {last : B}
    → (first >>= rest) ≡ ok last
    → (mid : A) × (first ≡ ok mid) × (rest mid ≡ ok last)
>>=-eq-ok (err raised) rest h = cc
>>=-eq-ok (ok returned) rest h = (returned, refl, h)
