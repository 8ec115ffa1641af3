-- ===== src/Errors.antt =====
-- Results of control-node calls: a value, or the code of the ControlNodeCoreError that is thrown
-- (packages/control-node-core/src/errors.ts).
use agent_multiplex.Base.{Bool, true, false, ◌≡◌, refl, ◌⊎◌, inl, inr}

pub data ErrorCode : Type 0 where
  not_found conflict unavailable fenced payload_mismatch : ErrorCode
  outcome_unknown unsupported cursor_expired unauthorized : ErrorCode
  -- the ZodError of a schema's `parse`, which is no ControlNodeCoreError
  invalid_input : ErrorCode

pub data Result {ℓ} (V : Type ℓ) : Type ℓ where
  -- a call that throws gives the code alone
  err : (code : ErrorCode) → Result V
  ok : (result : V) → Result V

module _ {κ} {W : Type κ} where
  infixl 5 ◌>>=◌
  abbrev pub ◌>>=◌ {ℓ} : {V : Type ℓ} → Result V → (V → Result W) → Result W
  err code >>= continue_with = err code
  ok result >>= continue_with = continue_with result

  infixl 5 ◌>>◌
  abbrev pub ◌>>◌ : Result (Unit {0}) → Result W → Result W
  first >> second = first >>= λ _. second

-- `if (!test) throw`
abbrev pub require : (test : Bool) → (code : ErrorCode) → Result (Unit {0})
require false code = err code
require true code = ok tt

pub Result-cases {ℓ} :
    {A : Type ℓ} (r : Result A) → ((a : A) × (r ≡ ok a)) ⊎ ((e : ErrorCode) × (r ≡ err e))
Result-cases (ok a) = inl (a, refl)
Result-cases (err e) = inr (e, refl)
