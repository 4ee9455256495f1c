-- ===== src/Ports/Filled.antt =====
-- core/deps.py: what fills the ports keeps what they promise.
use diddifree_id.Platform.Environment.{Env}
use diddifree_id.Ports.Promises.{
  IsUserWriteRepository, IsUserReadRepository, IsOtpRepository, IsRefreshTokenRepository,
  IsProfileCache, IsEventPublisher, IsOtpSender,
}
use diddifree_id.Ports.Wiring.{
  user_write_repo, user_read_repo, otp_repo, refresh_token_repo, profile_cache, event_publisher,
  null_event_publisher, otp_sender,
}
use diddifree_id.Ports.Users.{
  user_write_repo-IsUserWriteRepository, user_read_repo-IsUserReadRepository,
}
use diddifree_id.Ports.Otps.{otp_repo-IsOtpRepository}
use diddifree_id.Ports.Tokens.{refresh_token_repo-IsRefreshTokenRepository}
use diddifree_id.Ports.Services.{
  profile_cache-IsProfileCache, event_publisher-IsEventPublisher,
  null_event_publisher-IsEventPublisher, otp_sender-IsOtpSender,
}

-- Every dependency beside the port that it fills.
pub record ArePorts ⦃env : Env⦄ : Type 0 where
  pub users : IsUserWriteRepository user_write_repo
  pub readers : IsUserReadRepository user_read_repo
  pub otps : IsOtpRepository otp_repo
  pub refresh_tokens : IsRefreshTokenRepository refresh_token_repo
  pub cache : IsProfileCache profile_cache
  pub events : IsEventPublisher event_publisher
  pub no_events : IsEventPublisher null_event_publisher
  pub sender : IsOtpSender otp_sender

module _ ⦃env : Env⦄ where
  -- What core/deps.py puts behind each port keeps what domain/interfaces.py promises. The
  -- repository of accounts finds what it saved before any commit, and appends to the audit trail
  -- in the open transaction. The read side changes nothing, and a page holds at most
  -- MAX_PAGE_SIZE accounts and no more than are counted. The code that is found is the newest one
  -- for the number that is not consumed, a counter of attempts that is incremented is returned,
  -- and a second mark_consumed does nothing. A token that was revoked, alone or with all of its
  -- user, is found revoked, and none is left open. Cache, publishers and sender keep the tables;
  -- publishing, storing, invalidating and sending raise nothing.
  pub dependencies-ArePorts : ArePorts
  dependencies-ArePorts = record {
    users = user_write_repo-IsUserWriteRepository;
    readers = user_read_repo-IsUserReadRepository;
    otps = otp_repo-IsOtpRepository;
    refresh_tokens = refresh_token_repo-IsRefreshTokenRepository;
    cache = profile_cache-IsProfileCache;
    events = event_publisher-IsEventPublisher;
    no_events = null_event_publisher-IsEventPublisher;
    sender = otp_sender-IsOtpSender;
  }
