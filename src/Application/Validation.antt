-- ===== src/Application/Validation.antt =====
-- identity_app/modules/identity/application/validation.py
pub mod Laws
use Prim.Native.Char.{code}
use diddifree_id.Prelude.{ℕ, suc, String, Bool, true, false, ◌&&◌, ◌==◌, leb, if◌then◌else◌}
use diddifree_id.Platform.Environment.{Env}
use diddifree_id.Platform.Monad.{M, pure, raise, invalid_phone_format, field}

abbrev pub length : String → ℕ
length String.[] = 0
length (String.◌∷◌ c s) = suc (length s)

module _ ⦃env : Env⦄ where
  -- `"".join(phone.split())`
  unfoldable pub strip_spaces : String → String
  strip_spaces String.[] = String.[]
  strip_spaces (String.◌∷◌ c s) =
      let rest = strip_spaces s in if env.is_space c then rest else String.◌∷◌ c rest

  unfoldable pub all_decimal : String → Bool
  all_decimal String.[] = true
  all_decimal (String.◌∷◌ c s) = env.is_decimal c && all_decimal s

  -- `[1-9]\d{7,14}`
  country_and_number : String → Bool
  country_and_number String.[] = false
  country_and_number (String.◌∷◌ c s) =
      leb b'1' (code c)
      && leb (code c) b'9'
      && leb 7 (length s)
      && leb (length s) 14
      && all_decimal s

  -- `^\+[1-9]\d{7,14}$`. The text has no white space left, so `$` is the end of the text.
  unfoldable pub is_e164 : String → Bool
  unfolding country_and_number
  is_e164 String.[] = false
  is_e164 (String.◌∷◌ c s) = (code c == b'+') && country_and_number s

  unfoldable pub validate_phone : String → M String
  unfolding is_e164
  validate_phone phone =
      let normalised = strip_spaces phone in
      if is_e164 normalised then pure normalised else raise 422 invalid_phone_format (field "phone")
