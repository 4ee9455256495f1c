-- ===== src/Tests/Demo.antt =====
-- A small instance of the code outside the repository, and a session of three accounts.
use Prim.Native.Char.{code}
use diddifree_id.Prelude.{
  ℕ, zero, suc, ap, ◌+◌, ◌%◌, ◌≡◌, refl, String, true, false, ◌&&◌, Option, none, some, [], ◌∷◌,
  leb, ◌==◌, str_eq, arith, find_first, if◌then◌else◌,
}
use diddifree_id.Domain.Access.{UserRole, UserStatus}
use diddifree_id.Domain.Entities.{User, OtpCode, RefreshToken, UserStatusChange}
use diddifree_id.Platform.Settings.{default_settings}
use diddifree_id.Platform.Database.{Db, empty_db}
use diddifree_id.Platform.Redis.{negative}
use diddifree_id.Platform.Environment.{Env, DecodedClaims, decoded, invalid_token}
use diddifree_id.Platform.Monad.{World}
use diddifree_id.Infra.TokenService.{KeyRing}
use diddifree_id.Infra.Users.{user_by_id}
use diddifree_id.Infra.Otps.{has_otp_id}
use diddifree_id.Application.Validation.{length}
use diddifree_id.Lifecycle.Fresh.{IsFresh}

-- The text of an id is a run of its length.
unfoldable pub id_text : ℕ → String
id_text zero = ""
id_text (suc n) = String.◌∷◌ "i" (id_text n)

pub length-id_text : (n : ℕ) → length (id_text n) ≡ n
unfolding id_text
length-id_text zero = refl
length-id_text (suc n) = ap suc (length-id_text n)

abbrev admin_claims : DecodedClaims
admin_claims = record { sub = some "iii"; role = some "admin"; status = some "active" }

-- Ids are drawn from 100 up; the token "admin" names account 3; Redis counts eleven requests of
-- every address, and holds nothing else.
instance abbrev pub demo : Env
demo = record {
  settings = default_settings;
  clock = λ n. 1000 + n;
  uuid4 = λ n. 100 + n;
  random_below = λ k n. 123456 % n;
  token_urlsafe = λ k n. "raw";
  uuid_text = id_text;
  uuid_of_text = λ s. some (length s);
  uuid5 = λ name. 7;
  sha256_hex = λ s. s;
  hmac_hex = λ k s. s;
  jwt_encode = λ c k kid. c.sub;
  jwt_kid = λ t. some (some "kid");
  jwt_decode =
      λ t token k iss. if str_eq token "admin" then decoded admin_claims else invalid_token;
  read_file = λ path. none;
  rsa_public_numbers = λ pem. some (length pem, 65537);
  b64url = λ bytes. "AQAB";
  is_space = λ c. code c == 32;
  is_decimal = λ c. leb 48 (code c) && leb (code c) 57;
  redis_get = λ calls. some none;
  redis_ttl = λ calls. some negative;
  redis_incr = λ calls. some 11;
  redis_done = λ calls. true;
}

abbrev pub ring : KeyRing
ring = record {
  active_kid = "kid";
  private_pem = "private";
  public_keys = (record { kid = "kid"; pem = "public" }) ∷ [];
}

abbrev pub account : ℕ → String → UserRole → UserStatus → Option UserRole → User
account id phone role status requested = record {
  id = id;
  phone = phone;
  role = role;
  status = status;
  full_name = none;
  password_hash = none;
  requested_role = requested;
  created_at = some 1;
  updated_at = some 1;
}

abbrev pub ama : User
ama = account 1 "+22890000001" UserRole.user UserStatus.pending_verification (some UserRole.driver)

abbrev pub kofi : User
kofi = account 2 "+22890000002" UserRole.user UserStatus.active none

abbrev pub root : User
root = account 3 "+22890000003" UserRole.admin UserStatus.active none

abbrev pub sent_code : OtpCode
sent_code = record {
  id = 10;
  phone = "+22890000001";
  code_hash = "123456";
  expires_at = 2000;
  created_at = 900;
  consumed_at = none;
  attempts = 0;
}

abbrev pub open_session : RefreshToken
open_session = record {
  id = 20;
  user_id = 2;
  token_hash = "opaque_old";
  expires_at = 5000;
  created_at = 900;
  device_info = none;
  revoked_at = none;
}

abbrev verified : ℕ → ℕ → UserStatusChange
verified id user_id = record {
  id = id;
  user_id = user_id;
  to_status = UserStatus.active;
  changed_at = 900;
  from_status = some UserStatus.pending_verification;
  reason = none;
  changed_by = none;
}

abbrev pub tables : Db
tables = record empty_db {
  users = ama ∷ kofi ∷ root ∷ [];
  otp_codes = sent_code ∷ [];
  refresh_tokens = open_session ∷ [];
  user_status_history = verified 30 2 ∷ verified 31 3 ∷ [];
}

abbrev pub start : World
start = record { db = tables; committed = tables; redis = []; log = []; draws = 0 }

fresh_user : (n : ℕ) → user_by_id (100 + n) tables.users ≡ none
unfolding find_first
fresh_user n =
    let a : (1 == 100 + n) ≡ false = ground arith in
    let b : (2 == 100 + n) ≡ false = ground arith in
    let c : (3 == 100 + n) ≡ false = ground arith in rw (a, b, c) refl

fresh_code : (n : ℕ) → find_first (has_otp_id (100 + n)) tables.otp_codes ≡ none
unfolding find_first
fresh_code n = let a : (10 == 100 + n) ≡ false = ground arith in rw a refl

pub start-IsFresh : IsFresh start
start-IsFresh = record { users = λ n h. fresh_user n; codes = λ n h. fresh_code n }
