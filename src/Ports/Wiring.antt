-- ===== src/Ports/Wiring.antt =====
-- identity_app/core/deps.py: the implementation that fills each port, and the no-op publisher of
-- identity_app/shared_kernel/events/bus.py.
use diddifree_id.Platform.Environment.{Env}
use diddifree_id.Platform.Monad.{pure}
use diddifree_id.Platform.Session.{commit}
use diddifree_id.Infra.Users
use diddifree_id.Infra.Otps
use diddifree_id.Infra.Tokens
use diddifree_id.Infra.Reads
use diddifree_id.Infra.Cache
use diddifree_id.Infra.Bus
use diddifree_id.Infra.Sms
use diddifree_id.Ports.{
  UserWriteRepository, UserReadRepository, OtpRepository, RefreshTokenRepository, ProfileCache,
  EventPublisher, OtpSender,
}

abbrev pub user_read_repo : UserReadRepository
user_read_repo = record {
  get_by_id = Reads.get_by_id;
  get_by_phone = Reads.get_by_phone;
  list_users = Reads.list_users;
}

abbrev pub null_event_publisher : EventPublisher
null_event_publisher = record { publish = λ event. pure tt }

module _ ⦃env : Env⦄ where
  abbrev pub user_write_repo : UserWriteRepository
  user_write_repo = record {
    save = Users.save;
    find_by_id = Users.find_by_id;
    find_by_phone = Users.find_by_phone;
    record_status_change = Users.record_status_change;
    record_role_change = Users.record_role_change;
    commit = commit;
  }

  abbrev pub otp_repo : OtpRepository
  otp_repo = record {
    save = Otps.save;
    find_latest_active = Otps.find_latest_active;
    register_attempt = Otps.register_attempt;
    mark_consumed = Otps.mark_consumed;
    commit = commit;
  }

  abbrev pub refresh_token_repo : RefreshTokenRepository
  refresh_token_repo = record {
    save = Tokens.save;
    find_by_hash = Tokens.find_by_hash;
    revoke = Tokens.revoke;
    revoke_all_for_user = Tokens.revoke_all_for_user;
    commit = commit;
  }

  abbrev pub profile_cache : ProfileCache
  profile_cache = record {
    get_user = Cache.get_user;
    set_user = Cache.set_user;
    invalidate_user = Cache.invalidate_user;
  }

  abbrev pub event_publisher : EventPublisher
  event_publisher = record { publish = Bus.publish }

  abbrev pub otp_sender : OtpSender
  otp_sender = record { send = Sms.send_code }
