-- ===== src/Commands/VerifyOtp.antt =====
-- commands/verify_otp.py
use diddifree_id.Prelude.{ℕ, ◌-◌, String, Bool, Option, none, some, is_some, leb, if◌then◌else◌}
use diddifree_id.Domain.Access.{UserStatus, status_eq, role_value, status_value}
use diddifree_id.Domain.Entities.{User, OtpCode, is_expired}
use diddifree_id.Commands.Rows.{status_change, new_session}
use diddifree_id.Domain.Events.{user_registered}
use diddifree_id.Platform.Environment.{Env}
use diddifree_id.Platform.Monad.{
  M, ◌>>=◌, ◌>>◌, pure, raise, raise_if, or_raise, now, new_id, no_details, attempts,
  attempts_remaining, otp_invalid, otp_expired, otp_too_many_attempts, user_not_found,
  user_suspended,
}
use diddifree_id.Platform.Session.{commit}
use diddifree_id.Application.Validation.{validate_phone}
use diddifree_id.Application.Payloads.{Profile, profile_payload}
use diddifree_id.Infra.Users
use diddifree_id.Infra.Users.{find_by_phone, record_status_change}
use diddifree_id.Infra.Otps.{find_latest_active, register_attempt, mark_consumed}
use diddifree_id.Infra.Tokens
use diddifree_id.Infra.Cache.{invalidate_user}
use diddifree_id.Infra.Bus.{publish}
use diddifree_id.Infra.Security.{verify_otp_code}
use diddifree_id.Infra.TokenService.{KeyRing, issue_access_token, new_refresh_token, refresh_expiry}

pub record Authenticated : Type 0 where
  pub access_token : String
  pub refresh_token : String
  pub profile : Profile

-- `PENDING_KYC if user.requested_role else ACTIVE`
abbrev pub verified_status : User → UserStatus
verified_status u = if is_some u.requested_role then UserStatus.pending_kyc else UserStatus.active

abbrev pub is_unverified : User → Bool
is_unverified u = status_eq u.status UserStatus.pending_verification

module _ ⦃env : Env⦄ where
  -- A wrong code: counted, and burnt at the ceiling.
  reject_code : OtpCode → M Unit
  unfolding register_attempt
  reject_code otp = do
    count ← register_attempt otp.id
    if leb env.settings.otp_max_attempts count
        then (do mark_consumed otp.id; commit; raise 429 otp_too_many_attempts (attempts count))
        else (do
          commit
          raise 400 otp_invalid (attempts_remaining (env.settings.otp_max_attempts - count)))

  check_code : OtpCode → String → M Unit
  unfolding reject_code
  check_code otp code = if verify_otp_code code otp.code_hash then pure tt else reject_code otp

  -- The first verification activates the account, or parks it for a pending request.
  activate : User → ℕ → M User
  unfolding record_status_change
  activate u t =
      if is_unverified u
      then (do
        v ← Users.save (record u { status = verified_status u })
        id ← new_id
        record_status_change (
            status_change id v.id UserStatus.pending_verification v.status (some "Vérification OTP")
              none t)
        pure v)
      else pure u

  announce : Bool → User → M Unit
  unfolding publish
  announce first_verification u =
      if first_verification
      then (do
        at ← now
        publish (
            user_registered
              (record { user_id = u.id; phone = u.phone; role = role_value u.role; at = at })))
      else pure tt

  unfoldable pub verify_otp : KeyRing → String → String → Option String → M Authenticated
  unfolding validate_phone find_latest_active check_code find_by_phone activate new_refresh_token
      Tokens.save invalidate_user announce issue_access_token
  verify_otp ring raw_phone code device_info = do
    phone ← validate_phone raw_phone
    t ← now
    latest ← find_latest_active phone
    otp ← or_raise latest (raise 400 otp_invalid no_details)
    raise_if (is_expired otp t) (raise 410 otp_expired no_details)
    check_code otp code
    mark_consumed otp.id
    found ← find_by_phone phone
    account ← or_raise found (raise 404 user_not_found no_details)
    raise_if (status_eq account.status UserStatus.suspended) (raise 403 user_suspended no_details)
    u ← activate account t
    (raw_refresh, refresh_hash) ← new_refresh_token
    id ← new_id
    Tokens.save (new_session id u.id refresh_hash device_info (refresh_expiry t) t)
    commit
    invalidate_user u.id
    announce (is_unverified account) u
    access_token ← issue_access_token ring u.id (role_value u.role) (status_value u.status)
    pure (record {
      access_token = access_token;
      refresh_token = raw_refresh;
      profile = profile_payload u;
    })
