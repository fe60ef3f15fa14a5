-- ===== src/Prelude/Outcome.antt =====
-- The result of a Go call: a value, an `error`, or a panic. The errors are those of
-- errors/errors.go.
use mathlib.Core.Path.{◌≡◌, refl}
use mathlib.Core.Bool.{Bool, true, false}
use mathlib.Core.Logic.{◌⊎◌, inl, inr}

pub data Error : Type 0 where
  unimplemented unrecognized signature length_invalid bad_element group_agreement : Error
  client_not_found key_not_found duplicate missing_messages bad_metadata wrong_server : Error
  decryption_failure proof_failure token_invalid commit_failure wrong_receipt : Error
  link_overflow synchronization : Error
  -- What a library returned; the code passes it on.
  external : Error

pub data Outcome {ℓ} (A : Type ℓ) : Type ℓ where
  ok : A → Outcome A
  err : Error → Outcome A
  panic : Outcome A

infixl 5 ◌>>=◌
abbrev pub ◌>>=◌ {ℓ₁ ℓ₂} :
    {In : Type ℓ₁} {Out : Type ℓ₂} → Outcome In → (In → Outcome Out) → Outcome Out
panic >>= next = panic
err why >>= next = err why
ok value >>= next = next value

-- `if !test { return err }`.
abbrev pub require : Bool → Error → Outcome (Unit {0})
require true e = ok tt
require false e = err e

-- `if !test { panic(...) }`, and the run-time checks of slices and indices.
abbrev pub check : Bool → Outcome (Unit {0})
check true = ok tt
check false = panic

-- One call after another, where the first returns only an error.
infixl 5 ◌>>◌
abbrev pub ◌>>◌ {ℓ₁} : {Out : Type ℓ₁} → Outcome (Unit {0}) → Outcome Out → Outcome Out
first >> second = first >>= λ _. second

pub ok-injective {ℓ} : {A : Type ℓ} {x y : A} → ok x ≡ ok y → x ≡ y
ok-injective e = cc

-- A chain that returned went through its first call.
pub >>=-eq-ok {ℓ₁ ℓ₂} :
    {In : Type ℓ₁} {Out : Type ℓ₂} (first : Outcome In) (next : In → Outcome Out) {out : Out}
    → (first >>= next) ≡ ok out
    → (value : In) × (first ≡ ok value) × (next value ≡ ok out)
>>=-eq-ok panic next h = cc
>>=-eq-ok (err why) next h = cc
>>=-eq-ok (ok value) next h = (value, refl, h)

-- A call returned, or did not.
abbrev pub IsOk {ℓ} : {A : Type ℓ} → Outcome A → Type ℓ
IsOk {A = A} o = (a : A) × (o ≡ ok a)

-- What a call that fails is instead.
pub data Failure : Type 0 where
  by_error : Error → Failure
  by_panic : Failure

abbrev pub fail {ℓ} : {A : Type ℓ} → Failure → Outcome A
fail (by_error why) = err why
fail by_panic = panic

pub Outcome-cases {ℓ} : {A : Type ℓ} (o : Outcome A) → IsOk o ⊎ ((f : Failure) × (o ≡ fail f))
Outcome-cases (ok a) = inl (a, refl)
Outcome-cases (err why) = inr (by_error why, refl)
Outcome-cases panic = inr (by_panic, refl)

-- A call in a method with a receiver: an error or a panic ends the method in the state `s` that
-- it has reached.
abbrev pub attempt {ℓ₁ ℓ₂ ℓ₃} :
    {State : Type ℓ₁} {In : Type ℓ₂} {Out : Type ℓ₃}
    → State
    → Outcome In
    → (In → State × Outcome Out)
    → State × Outcome Out
attempt s panic next = (s, panic)
attempt s (err why) next = (s, err why)
attempt s (ok value) next = next value

pub attempt-fail {ℓ₁ ℓ₂ ℓ₃} :
    {State : Type ℓ₁} {In : Type ℓ₂} {Out : Type ℓ₃} (s : State) (f : Failure)
    (next : In → State × Outcome Out)
    → attempt s (fail f) next ≡ (s, fail f)
attempt-fail s (by_error why) next = refl
attempt-fail s by_panic next = refl

-- What holds before a call and after all that follows it holds in the end.
pub attempt-kept {ℓ₁ ℓ₂ ℓ₃ κ} :
    {State : Type ℓ₁} {In : Type ℓ₂} {Out : Type ℓ₃} (P : State → Type κ) (s : State)
    (o : Outcome In) (next : In → State × Outcome Out)
    → P s
    → ((value : In) → o ≡ ok value → P (next value).0)
    → P (attempt s o next).0
attempt-kept P s (ok value) next before after = after value refl
attempt-kept P s (err why) next before after = before
attempt-kept P s panic next before after = before
