-- ===== src/Infra/RateLimiter/Laws.antt =====
-- The refusals of infra/rate_limiter.py.
use diddifree_id.Prelude.{
  ℕ, ◌<◌, ◌≡◌, String, false, some, ◌∷◌, arith, str_eq, Option-cases, inl, inr,
}
use diddifree_id.Platform.Redis.{incr, ip_key}
use diddifree_id.Platform.Environment.{Env}
use diddifree_id.Platform.Monad.{World, ok}
use diddifree_id.Infra.RateLimiter.{hit_ip, ip_requests_per_window}

module _ ⦃env : Env⦄ (w : World) where
  -- An address is refused only if Redis replied with a count above the allowance: every failure
  -- of Redis lets the request pass.
  pub hit_ip-refuses :
      (ip : String)
      → (hit_ip ip w).0 ≡ ok false
      → (n : ℕ) × (env.redis_incr (incr (ip_key ip) ∷ w.redis) ≡ some n)
        × (ip_requests_per_window < n)
  unfolding hit_ip
  hit_ip-refuses ip h = elim (Option-cases (env.redis_incr (incr (ip_key ip) ∷ w.redis))) [
    | inl e ↦ absurd (ground (arith, h, e))
    | inr (n, e) ↦ (n, e, ground (arith, h, e))
  ]

  -- A request from an address that is not empty is refused if Redis counts it above the
  -- allowance.
  pub hit_ip-counts :
      (ip : String) (n : ℕ)
      → str_eq ip "" ≡ false
      → env.redis_incr (incr (ip_key ip) ∷ w.redis) ≡ some n
      → ip_requests_per_window < n
      → (hit_ip ip w).0 ≡ ok false
  unfolding hit_ip
  hit_ip-counts ip n e r h = ground (arith, e, r, h)
