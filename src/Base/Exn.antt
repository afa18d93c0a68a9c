-- ===== src/Base/Exn.antt =====
-- Outcomes of code that may raise: the exceptions of exceptions.py that the modelled code raises,
-- and the built-in ones.
use mathlib.Core.Path.{◌≡◌, refl}

pub data Exn : Type 0 where
  assertion_error runtime_error value_error key_error index_error type_error : Exn
  overflow_error : Exn
  stop_iteration attribute_error connection_aborted : Exn
  connection_error timeout_error : Exn
  invalid_input unknown_id : Exn
  command_exception command_timeout update_in_progress : Exn
  encode_exception decode_exception : Exn
  not_connected incompatible_firmware invalid_device_id : Exn

pub data Result {ℓ} (A : Type ℓ) : Type ℓ where
  err : Exn → Result A
  ok : A → Result A

-- An exception skips the rest.
infixl 5 ◌>>=◌
abbrev pub ◌>>=◌ {ℓ κ} : {A : Type ℓ} {B : Type κ} → Result A → (A → Result B) → Result B
err e >>= rest = err e
ok a >>= rest = rest a

-- Code that goes on to the end raised nothing on the way.
module _ {ℓ κ} {A : Type ℓ} {B : Type κ} where
  pub >>=-eq-ok :
      (first : Result A) (rest : A → Result B) {v : B} (goes_on : (first >>= rest) ≡ ok v)
      → (u : A) × (first ≡ ok u) × (rest u ≡ ok v)
  >>=-eq-ok (err e) rest goes_on = cc
  >>=-eq-ok (ok u) rest goes_on = (u, refl, goes_on)
