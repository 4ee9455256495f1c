-- ===== src/Infra/Bus.antt =====
-- identity_app/shared_kernel/events/bus.py: `RedisEventPublisher`.
use diddifree_id.Prelude.{ℕ, String}
use diddifree_id.Domain.Events.{DomainEvent, event_name, to_payload}
use diddifree_id.Platform.Redis.{xadd}
use diddifree_id.Platform.Environment.{Env}
use diddifree_id.Platform.Monad.{M, ◌>>◌, pure, send}

abbrev pub stream_key : String
stream_key = "identity.events"

abbrev pub stream_max_len : ℕ
stream_max_len = 100000

module _ ⦃env : Env⦄ where
  -- A failure is logged and not raised.
  unfoldable pub publish : DomainEvent → M Unit
  unfolding event_name to_payload
  publish event = do
    send (xadd stream_key (event_name event) (to_payload event) stream_max_len) env.redis_done
    pure tt
