-- ===== src/Platform/Settings.antt =====
-- identity_app/core/settings.py: the settings that the modelled code reads, and their defaults.
use diddifree_id.Prelude.{ℕ, String, ◌*◌, Bool, true, Option, none, List, []}

pub record Settings : Type 0 where
  pub redis_url : String
  pub jwt_private_key_path : String
  pub jwt_public_key_path : String
  pub jwt_active_kid : String
  pub jwt_previous_public_key_path : Option String
  pub jwt_previous_kid : Option String
  pub jwt_issuer : String
  pub jwt_access_lifetime_minutes : ℕ
  pub refresh_token_lifetime_days : ℕ
  pub otp_code_lifetime_seconds : ℕ
  pub otp_rate_limit_seconds : ℕ
  pub otp_max_attempts : ℕ
  pub otp_hash_pepper : String
  pub otp_log_plaintext : Bool
  -- `service_api_keys`, already split and stripped as `service_api_key_set` does.
  pub service_api_key_set : List String

abbrev pub default_settings : Settings
default_settings = record {
  redis_url = "redis://localhost:6381/0";
  jwt_private_key_path = "keys/private.pem";
  jwt_public_key_path = "keys/public.pem";
  jwt_active_kid = "dev-2026-07-01";
  jwt_previous_public_key_path = none;
  jwt_previous_kid = none;
  jwt_issuer = "diddifree-id";
  jwt_access_lifetime_minutes = 15;
  refresh_token_lifetime_days = 30;
  otp_code_lifetime_seconds = 300;
  otp_rate_limit_seconds = 60;
  otp_max_attempts = 5;
  otp_hash_pepper = "change-me-in-prod-32-characters-minimum";
  otp_log_plaintext = true;
  service_api_key_set = [];
}

-- `timedelta(seconds=n)`, `timedelta(minutes=n)` and `timedelta(days=n)`, in microseconds.
abbrev pub timedelta_seconds : ℕ → ℕ
timedelta_seconds n = n * 1000000

abbrev pub timedelta_minutes : ℕ → ℕ
timedelta_minutes n = n * 60000000

abbrev pub timedelta_days : ℕ → ℕ
timedelta_days n = n * 86400000000
