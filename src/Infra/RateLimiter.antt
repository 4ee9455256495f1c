-- ===== src/Infra/RateLimiter.antt =====
-- identity_app/modules/identity/infra/rate_limiter.py: `RedisOtpRateLimiter`.
pub mod Laws
use diddifree_id.Prelude.{
  ℕ, String, Bool, true, Option, none, some, str_eq, leb, ◌==◌, if◌then◌else◌,
}
use diddifree_id.Platform.Redis.{
  cooldown_key, ip_key, one, ttl, set, incr, expire, TtlReply, seconds, negative,
}
use diddifree_id.Platform.Environment.{Env}
use diddifree_id.Platform.Monad.{M, ◌>>=◌, ◌>>◌, pure, send}

abbrev pub ip_requests_per_window : ℕ
ip_requests_per_window = 10

abbrev pub ip_window_seconds : ℕ
ip_window_seconds = 600

-- `max(ttl, 0)`, and 0 if the command failed.
abbrev pub remaining_of : Option TtlReply → ℕ
remaining_of none = 0
remaining_of (some negative) = 0
remaining_of (some (seconds n)) = n

module _ ⦃env : Env⦄ where
  unfoldable pub seconds_until_phone_allowed : String → ℕ → M ℕ
  seconds_until_phone_allowed phone cooldown_seconds =
      if cooldown_seconds == 0
      then pure 0
      else (do reply ← send (ttl (cooldown_key phone)) env.redis_ttl; pure (remaining_of reply))

  unfoldable pub mark_phone_sent : String → ℕ → M Unit
  mark_phone_sent phone cooldown_seconds =
      if cooldown_seconds == 0
      then pure tt
      else (do send (set (cooldown_key phone) one cooldown_seconds) env.redis_done; pure tt)

  -- The rest of `hit_ip`, once `INCR` has replied. Should `EXPIRE` fail, the request passes.
  count_hit : String → Option ℕ → M Bool
  count_hit ip none = pure true
  count_hit ip (some count) =
      if count == 1
      then (do
        armed ← send (expire (ip_key ip) ip_window_seconds) env.redis_done
        pure (if armed then leb count ip_requests_per_window else true))
      else pure (leb count ip_requests_per_window)

  unfoldable pub hit_ip : String → M Bool
  unfolding count_hit
  hit_ip ip =
      if str_eq ip ""
      then pure true
      else (do count ← send (incr (ip_key ip)) env.redis_incr; count_hit ip count)
