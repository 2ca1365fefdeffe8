-- ===== src/Prelude/Result.antt =====
-- Go's pair of a value and an error, as the one of the two that counts; the code that returns early on
-- an error is a sequence of results.
use mathlib.Core.Path.{◌≡◌, refl}
use mathlib.Core.Bool.{Bool, true, false}

pub data Result {ℓ κ} (Reason : Type ℓ) (Value : Type κ) : Type (ℓ ⊔ κ) where
  err : Reason → Result Reason Value
  ok : Value → Result Reason Value

module _ {Reason Value Later : Type 0} where
  infixl 5 ◌>>=◌
  abbrev pub ◌>>=◌ : Result Reason Value → (Value → Result Reason Later) → Result Reason Later
  err reason >>= next = err reason
  ok value >>= next = next value

  infixl 5 ◌>>◌
  abbrev pub ◌>>◌ : Result Reason Value → Result Reason Later → Result Reason Later
  first >> later = first >>= λ ignored. later

  pub >>=-eq-ok :
      (first : Result Reason Value) (next : Value → Result Reason Later) {end : Later}
      → (first >>= next) ≡ ok end
      → (value : Value) × (first ≡ ok value) × (next value ≡ ok end)
  >>=-eq-ok (err reason) next is_ok = cc
  >>=-eq-ok (ok value) next is_ok = (value, refl, is_ok)

-- An early return with an error, where a test fails.
abbrev pub require : {Reason : Type 0} → Bool → Reason → Result Reason (Unit {0})
require false reason = err reason
require true _ = ok tt

pub require-ok :
    {Reason : Type 0} (test : Bool) (reason : Reason) → require test reason ≡ ok tt → test ≡ true
require-ok false reason is_ok = cc
require-ok true reason is_ok = refl

pub then-ok :
    {Reason Later : Type 0} (check : Result Reason (Unit {0})) (later : Result Reason Later)
    {end : Later}
    → (check >> later) ≡ ok end
    → (check ≡ ok tt) × (later ≡ ok end)
then-ok (err reason) later is_ok = cc
then-ok (ok _) later is_ok = (refl, is_ok)
