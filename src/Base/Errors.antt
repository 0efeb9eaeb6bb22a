-- ===== src/Base/Errors.antt =====
-- Results of fallible Go functions: the error is its message.
use mathlib.Core.Path.{◌≡◌, refl}
use devcontainer_manager.Base.Bytes.{Str}

pub data Result {ℓ} (A : Type ℓ) : Type ℓ where
  err : Str → Result A
  ok : A → Result A

module _ {ℓ κ} {A : Type ℓ} {B : Type κ} where
  infixl 5 ◌>>=◌
  -- `if err != nil { return err }`, and what follows it with the value.
  abbrev pub ◌>>=◌ : Result A → (A → Result B) → Result B
  err message >>= next = err message
  ok value >>= next = next value

  -- A bind succeeds only by way of a value.
  pub >>=-eq-ok :
      (first : Result A) (next : A → Result B) {last : B}
      → (first >>= next) ≡ ok last
      → (value : A) × (first ≡ ok value) × (next value ≡ ok last)
  >>=-eq-ok (err message) next h = cc
  >>=-eq-ok (ok value) next h = (value, refl, h)

infixl 5 ◌>>◌
-- The same after a call that gives no value.
abbrev pub ◌>>◌ {ℓ} : {B : Type ℓ} → Result (Unit {0}) → Result B → Result B
first >> rest = first >>= λ _. rest
