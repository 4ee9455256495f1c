-- ===== src/Commands/RequestOtp.antt =====
-- commands/request_otp.py
use diddifree_id.Prelude.{ℕ, ◌+◌, String, Option, none, some, not, str_eq, ltb, if◌then◌else◌}
use diddifree_id.Domain.Entities.{User, OtpCode}
use diddifree_id.Platform.Settings.{timedelta_seconds}
use diddifree_id.Platform.Environment.{Env}
use diddifree_id.Platform.Monad.{
  M, ◌>>=◌, ◌>>◌, pure, raise, raise_if, draw, now, new_id, otp_rate_limited, retry_after_seconds,
}
use diddifree_id.Platform.Session.{commit}
use diddifree_id.Application.Validation.{validate_phone}
use diddifree_id.Infra.Users.{find_by_phone}
use diddifree_id.Infra.Otps.{save}
use diddifree_id.Infra.RateLimiter.{hit_ip, seconds_until_phone_allowed, mark_phone_sent}
use diddifree_id.Infra.Security.{six_digits, hash_otp_code}
use diddifree_id.Infra.Sms.{send_code}

pub record OtpReply : Type 0 where
  pub expires_in_seconds : ℕ
  pub retry_after_seconds : ℕ

-- The row that `RequestOtp` saves.
abbrev pub new_code : ℕ → String → String → ℕ → ℕ → OtpCode
new_code id phone code_hash expires_at created_at = record {
  id = id;
  phone = phone;
  code_hash = code_hash;
  expires_at = expires_at;
  created_at = created_at;
  consumed_at = none;
  attempts = 0;
}

module _ ⦃env : Env⦄ where
  -- `if client_ip and not await hit_ip(client_ip): raise`
  unfoldable pub check_ip : Option String → M Unit
  unfolding hit_ip
  check_ip none = pure tt
  check_ip (some ip) = if str_eq ip "" then pure tt else (do
    allowed ← hit_ip ip
    raise_if (not allowed)
        (raise 429 otp_rate_limited (retry_after_seconds env.settings.otp_rate_limit_seconds)))

  -- The branch of a number that is known.
  unfoldable pub issue_code : String → Option User → M Unit
  unfolding save send_code
  issue_code phone none = pure tt
  issue_code phone (some u) = do
    t ← now
    n ← draw (λ k. env.random_below k 1000000)
    id ← new_id
    save (
        new_code id phone (hash_otp_code (six_digits n))
          (t + timedelta_seconds env.settings.otp_code_lifetime_seconds) t)
    commit
    send_code phone (six_digits n)

  unfoldable pub request_otp : String → Option String → M OtpReply
  unfolding validate_phone find_by_phone check_ip issue_code seconds_until_phone_allowed
      mark_phone_sent
  request_otp raw_phone client_ip = do
    phone ← validate_phone raw_phone
    check_ip client_ip
    remaining ← seconds_until_phone_allowed phone env.settings.otp_rate_limit_seconds
    raise_if (ltb 0 remaining) (raise 429 otp_rate_limited (retry_after_seconds remaining))
    known ← find_by_phone phone
    issue_code phone known
    mark_phone_sent phone env.settings.otp_rate_limit_seconds
    pure (record {
      expires_in_seconds = env.settings.otp_code_lifetime_seconds;
      retry_after_seconds = env.settings.otp_rate_limit_seconds;
    })
