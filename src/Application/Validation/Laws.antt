-- ===== src/Application/Validation/Laws.antt =====
-- What application/validation.py makes of a phone number.
use diddifree_id.Prelude.{◌≡◌, refl, String, arith, Bool-cases, inl, inr}
use diddifree_id.Platform.Environment.{Env}
use diddifree_id.Platform.Monad.{World, ok}
use diddifree_id.Application.Validation.{strip_spaces, validate_phone}

module _ ⦃env : Env⦄ where
  strip_spaces-idempotent : (s : String) → strip_spaces (strip_spaces s) ≡ strip_spaces s
  unfolding strip_spaces
  strip_spaces-idempotent String.[] = refl
  strip_spaces-idempotent (String.◌∷◌ c s) = elim (Bool-cases (env.is_space c)) [
    | inl e ↦ ground (arith, e, strip_spaces-idempotent s)
    | inr e ↦ ground (arith, e, strip_spaces-idempotent s)
  ]

  -- A phone number that validate_phone returned is valid as it is, and is returned unchanged.
  pub validate_phone-idempotent :
      (raw : String) (w : World) {phone : String}
      → (validate_phone raw w).0 ≡ ok phone
      → validate_phone phone w ≡ (ok phone, w)
  unfolding validate_phone
  validate_phone-idempotent raw w {phone} h =
      let e : phone ≡ strip_spaces raw = ground arith in
      ground (arith, h, e, strip_spaces-idempotent raw)
