-- ===== src/Infra/Sms.antt =====
-- identity_app/modules/identity/infra/sms_adapter.py: `LoggingOtpSender`.
use diddifree_id.Prelude.{String, if◌then◌else◌}
use diddifree_id.Platform.Environment.{Env}
use diddifree_id.Platform.Monad.{M, log_line, otp_plaintext, otp_issued}

module _ ⦃env : Env⦄ where
  unfoldable pub send_code : String → String → M Unit
  send_code phone code =
      if env.settings.otp_log_plaintext
      then log_line (otp_plaintext phone code)
      else log_line (otp_issued phone)
