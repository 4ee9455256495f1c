-- ===== src/Ports/Services.antt =====
-- `SqlAlchemyUserReadRepository`, `RedisProfileCache`, the two publishers and `LoggingOtpSender`
-- keep what their ports promise.
use diddifree_id.Prelude.{refl, arith}
use diddifree_id.Platform.Environment.{Env}
use diddifree_id.Infra.Cache.{get_user, set_user, invalidate_user}
use diddifree_id.Infra.Bus.{publish}
use diddifree_id.Infra.Sms.{send_code}
use diddifree_id.Ports.Promises.{IsProfileCache, IsEventPublisher, IsOtpSender}
use diddifree_id.Ports.Wiring.{profile_cache, event_publisher, null_event_publisher, otp_sender}

module _ ⦃env : Env⦄ where
  pub event_publisher-IsEventPublisher : IsEventPublisher event_publisher
  unfolding publish
  event_publisher-IsEventPublisher = record {
    publish_keeps = λ e w. (refl, record { db = refl; committed = refl });
  }

  pub otp_sender-IsOtpSender : IsOtpSender otp_sender
  unfolding send_code
  otp_sender-IsOtpSender = record {
    send_keeps = λ phone code w.
        (ground arith, record { db = ground arith; committed = ground arith }, ground arith);
  }

  pub profile_cache-IsProfileCache : IsProfileCache profile_cache
  unfolding get_user set_user invalidate_user
  profile_cache-IsProfileCache = record {
    get_user_keeps = λ i w. record { db = ground arith; committed = ground arith };
    set_user_keeps = λ u w. (refl, record { db = refl; committed = refl });
    invalidate_user_keeps = λ i w. (refl, record { db = refl; committed = refl });
  }

pub null_event_publisher-IsEventPublisher : IsEventPublisher null_event_publisher
null_event_publisher-IsEventPublisher = record {
  publish_keeps = λ e w. (refl, record { db = refl; committed = refl });
}
