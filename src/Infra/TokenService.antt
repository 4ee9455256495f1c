-- ===== src/Infra/TokenService.antt =====
-- identity_app/core/keys.py: the key ring, and
-- identity_app/modules/identity/infra/token_service.py: `TokenService` over it.
use Prim.Native.String.{◌++◌ as str_append}
use diddifree_id.Prelude.{ℕ, ◌+◌, String, Bool, Option, some, none, List, str_eq, find_first}
use diddifree_id.Platform.Settings.{timedelta_minutes, timedelta_days}
use diddifree_id.Platform.Environment.{
  Env, DecodedClaims, JwtResult, decoded, expired_signature, invalid_token,
}
use diddifree_id.Platform.Monad.{
  M, ◌>>=◌, pure, raise, or_raise, no_details, token_invalid, token_expired, draw, now,
}

pub record PublicKeyEntry : Type 0 where
  pub kid : String
  pub pem : String

pub record KeyRing : Type 0 where
  pub active_kid : String
  pub private_pem : String
  pub public_keys : List PublicKeyEntry

abbrev pub service_role : String
service_role = "service"

-- `e.kid == kid`, where the header may have no `kid`.
abbrev pub has_kid : Option String → PublicKeyEntry → Bool
has_kid none e = Bool.false
has_kid (some kid) e = str_eq e.kid kid

-- What `decode_access_token` makes of the result of `jwt.decode`.
abbrev read_jwt : JwtResult → M DecodedClaims
read_jwt (decoded c) = pure c
read_jwt expired_signature = raise 401 token_expired no_details
read_jwt invalid_token = raise 401 token_invalid no_details

module _ ⦃env : Env⦄ where
  unfoldable pub hash_refresh_token : String → String
  hash_refresh_token raw_token = env.sha256_hex raw_token

  unfoldable pub issue_access_token : KeyRing → ℕ → String → String → M String
  issue_access_token ring user_id role status = do
    t ← now
    pure (
        env.jwt_encode
          (record {
            sub = env.uuid_text user_id;
            role = role;
            status = status;
            iss = env.settings.jwt_issuer;
            iat = t;
            exp = t + timedelta_minutes env.settings.jwt_access_lifetime_minutes;
            service = none;
          })
          ring.private_pem ring.active_kid)

  unfoldable pub decode_access_token : KeyRing → String → M DecodedClaims
  decode_access_token ring token = do
    kid ← or_raise (env.jwt_kid token) (raise 401 token_invalid no_details)
    entry ←
        or_raise (find_first (has_kid kid) ring.public_keys) (raise 401 token_invalid no_details)
    result ← draw (λ n. env.jwt_decode (env.clock n) token entry.pem env.settings.jwt_issuer)
    read_jwt result

  -- `f"opaque_{token_urlsafe(32)}"`
  abbrev pub opaque_token : ℕ → String
  opaque_token n = str_append "opaque_" (env.token_urlsafe n 32)

  -- The raw token, and the hash that is stored.
  unfoldable pub new_refresh_token : M (String × String)
  new_refresh_token = do raw ← draw opaque_token; pure (raw, hash_refresh_token raw)

  unfoldable pub refresh_expiry : ℕ → ℕ
  refresh_expiry t = t + timedelta_days env.settings.refresh_token_lifetime_days
