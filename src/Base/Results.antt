-- ===== src/Base/Results.antt =====
-- Fallible results, and a database transaction: state passing with failure. An error carries no
-- state, since the deferred rollback of the source undoes what the transaction wrote.
use mathlib.Core.Path.{◌≡◌, refl}
use mathlib.Core.Bool.{Bool, true, false}
use mathlib.Core.Logic.{◌⊎◌, inl, inr}
use mathlib.Core.Option.{Option, none, some}

pub data Result {ℓ κ} (E : Type ℓ) (A : Type κ) : Type (ℓ ⊔ κ) where
  err : E → Result E A
  ok : A → Result E A

module _ {ℓ} {E : Type ℓ} where
  -- A test of the source that returns early with `failure`.
  abbrev pub guard : (holds : Bool) (failure : E) → Result E (Unit {0})
  guard false failure = err failure
  guard true failure = ok tt

  infixl 5 ◌>>◌ ◌>>=◌
  abbrev pub ◌>>=◌ {κ μ} :
      {Value : Type κ} {Next : Type μ} → Result E Value → (Value → Result E Next) → Result E Next
  err failure >>= next = err failure
  ok value >>= next = next value

  abbrev pub ◌>>◌ {κ} : {Next : Type κ} → Result E (Unit {0}) → Result E Next → Result E Next
  checked >> next = checked >>= (λ passed. next)

  -- The value of a lookup, or an error.
  abbrev pub or_fail {κ} : {A : Type κ} → Option A → E → Result E A
  or_fail none e = err e
  or_fail (some a) e = ok a

  -- A chain that succeeds has a first value, with which the rest succeeds.
  pub chain_parts {κ μ} :
      {Value : Type κ} {Next : Type μ} (first : Result E Value) (next : Value → Result E Next)
      {out : Next}
      → (first >>= next) ≡ ok out
      → (value : Value) × (first ≡ ok value) × (next value ≡ ok out)
  chain_parts (err failure) next done = cc
  chain_parts (ok value) next done = (value, refl, done)

pub Result-cases {ℓ κ} :
    {E : Type ℓ} {A : Type κ} (m : Result E A) → ((a : A) × (m ≡ ok a)) ⊎ ((e : E) × (m ≡ err e))
Result-cases (ok a) = inl (a, refl)
Result-cases (err e) = inr (e, refl)
