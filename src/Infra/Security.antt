-- ===== src/Infra/Security.antt =====
-- identity_app/core/security.py, the part for OTP codes, and the code text of request_otp.py.
use Prim.Native.String.{◌++◌ as str_append}
use diddifree_id.Prelude.{ℕ, ◌/◌, ◌%◌, String, Bool, str_eq, ◌==◌, if◌then◌else◌}
use diddifree_id.Platform.Environment.{Env}

digit : ℕ → String
digit n =
    if n == 0
    then "0"
    else if n == 1
    then "1"
    else if n == 2
    then "2"
    else if n == 3
    then "3"
    else if n == 4
    then "4"
    else if n == 5
    then "5"
    else if n == 6
    then "6"
    else if n == 7
    then "7"
    else if n == 8
    then "8"
    else "9"

-- `f"{n:06d}"`, of a number below a million.
unfoldable pub six_digits : ℕ → String
unfolding digit
six_digits n = str_append (digit (n / 100000 % 10)) (
    str_append (digit (n / 10000 % 10)) (
      str_append (digit (n / 1000 % 10))
        (str_append (digit (n / 100 % 10)) (str_append (digit (n / 10 % 10)) (digit (n % 10))))))

module _ ⦃env : Env⦄ where
  unfoldable pub hash_otp_code : String → String
  hash_otp_code code = env.hmac_hex env.settings.otp_hash_pepper code

  unfoldable pub verify_otp_code : String → String → Bool
  unfolding hash_otp_code
  verify_otp_code code expected_hash = str_eq (hash_otp_code code) expected_hash
