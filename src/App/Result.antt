-- ===== src/App/Result.antt =====
-- Result.hpp: a variant of a value and an error.
use buzzweb_server.Common.{Bool, true, false, Outcome, returned, threw}

pub data Result {ℓ κ} (SuccessType : Type ℓ) (ErrorType : Type κ) : Type (ℓ ⊔ κ) where
  ok : SuccessType → Result SuccessType ErrorType
  err : ErrorType → Result SuccessType ErrorType

module _ {ℓ κ} {SuccessType : Type ℓ} {ErrorType : Type κ} where
  abbrev pub is_ok : Result SuccessType ErrorType → Bool
  is_ok (ok _) = true
  is_ok (err _) = false

  -- `std::get` throws on the other alternative.
  abbrev pub value : Result SuccessType ErrorType → Outcome SuccessType
  value (ok v) = returned v
  value (err _) = threw "bad_variant_access"

  abbrev pub error : Result SuccessType ErrorType → Outcome ErrorType
  error (ok _) = threw "bad_variant_access"
  error (err e) = returned e
