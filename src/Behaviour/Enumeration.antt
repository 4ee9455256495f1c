-- ===== src/Behaviour/Enumeration.antt =====
-- commands/request_otp.py: what a caller can learn about a number.
use diddifree_id.Prelude.{ℕ, ltb, ◌≡◌, refl, sym, ◌∙◌, ap, String, Option, arith}
use diddifree_id.Domain.Entities.{User}
use diddifree_id.Platform.Environment.{Env}
use diddifree_id.Platform.Monad.{
  World, M, Result, ok, err, ◌>>=◌, pure, raise, raise_if, otp_rate_limited, retry_after_seconds,
}
use diddifree_id.Application.Validation.{validate_phone}
use diddifree_id.Infra.Users.{find_by_phone, user_by_phone}
use diddifree_id.Infra.RateLimiter.{hit_ip, seconds_until_phone_allowed, mark_phone_sent}
use diddifree_id.Commands.RequestOtp.{issue_code, check_ip, request_otp}

-- An action that the tables do not tell apart: from two states in which the same commands were
-- sent to Redis, it gives the same result and has sent the same commands.
pub record IsBlind {A : Type 0} (m : M A) : Type 0 where
  pub result : (v w : World) → v.redis ≡ w.redis → (m v).0 ≡ (m w).0
  pub sent : (v w : World) → v.redis ≡ w.redis → (m v).1.redis ≡ (m w).1.redis

module _ {A B : Type 0} (m : M A) (f : A → M B) where
  >>=-result :
      (r : Result A) (v w : World)
      → (m v).0 ≡ r
      → (m w).0 ≡ r
      → (m v).1.redis ≡ (m w).1.redis
      → ((a : A) → IsBlind (f a))
      → (((m >>= f) v).0 ≡ ((m >>= f) w).0) × (((m >>= f) v).1.redis ≡ ((m >>= f) w).1.redis)
  >>=-result (ok a) v w p q s h =
      let x : (m >>= f) v ≡ f a (m v).1 = ground (arith, p) in
      let y : (m >>= f) w ≡ f a (m w).1 = ground (arith, q) in
      rw (x, y) ((h a).result (m v).1 (m w).1 s, (h a).sent (m v).1 (m w).1 s)
  >>=-result (err e) v w p q s h = (ground (arith, p, q), ground (arith, p, q, s))

  >>=-IsBlind : IsBlind m → ((a : A) → IsBlind (f a)) → IsBlind (m >>= f)
  >>=-IsBlind b h = record {
    result = λ v w e. (>>=-result (m w).0 v w (b.result v w e) refl (b.sent v w e) h).0;
    sent = λ v w e. (>>=-result (m w).0 v w (b.result v w e) refl (b.sent v w e) h).1;
  }

module _ ⦃env : Env⦄ where
  validate_phone-IsBlind : (phone : String) → IsBlind (validate_phone phone)
  unfolding validate_phone
  validate_phone-IsBlind phone = record {
    result = λ v w e. ground arith;
    sent = λ v w e. ground arith;
  }

  check_ip-IsBlind : (ip : Option String) → IsBlind (check_ip ip)
  unfolding check_ip hit_ip
  check_ip-IsBlind ip = record { result = λ v w e. ground arith; sent = λ v w e. ground arith }

  seconds-IsBlind : (phone : String) (n : ℕ) → IsBlind (seconds_until_phone_allowed phone n)
  unfolding seconds_until_phone_allowed
  seconds-IsBlind phone n = record { result = λ v w e. ground arith; sent = λ v w e. ground arith }

  mark_phone_sent-IsBlind : (phone : String) (n : ℕ) → IsBlind (mark_phone_sent phone n)
  unfolding mark_phone_sent
  mark_phone_sent-IsBlind phone n = record {
    result = λ v w e. ground arith;
    sent = λ v w e. ground arith;
  }

  module _ (phone : String) (known : Option User) (w : World) where
    ok-issue_code : (issue_code phone known w).0 ≡ ok tt
    unfolding issue_code
    ok-issue_code = ground arith

    redis-issue_code : (issue_code phone known w).1.redis ≡ w.redis
    unfolding issue_code
    redis-issue_code = ground arith

  limit-IsBlind :
      (n : ℕ) → IsBlind (raise_if (ltb 0 n) (raise 429 otp_rate_limited (retry_after_seconds n)))
  limit-IsBlind n = record { result = λ v w e. ground arith; sent = λ v w e. ground arith }

  pure-IsBlind : {A : Type 0} (a : A) → IsBlind (pure a)
  pure-IsBlind a = record { result = λ v w e. refl; sent = λ v w e. e }

  -- The branch of a known number gives the rest nothing to tell it by.
  issue_code-IsBlind :
      {A : Type 0} (phone : String) (rest : M A)
      → IsBlind rest
      → IsBlind (find_by_phone phone >>= λ known. issue_code phone known >>= λ _. rest)
  unfolding find_by_phone
  issue_code-IsBlind phone rest h =
      let known = λ (w : World). user_by_phone phone w.db.users in
      let at = λ (w : World). (issue_code phone (known w) w).1 in
      let step : (w : World)
          → (find_by_phone phone >>= λ k. issue_code phone k >>= λ _. rest) w ≡ rest (at w) =
        λ w. ground (arith, ok-issue_code phone (known w) w) in
      let redis = λ (w : World). redis-issue_code phone (known w) w in
      record {
        result = λ v w e.
            ap (λ x. x.0) (step v)
            ∙ h.result (at v) (at w) (redis v ∙ e ∙ sym (redis w))
            ∙ ap (λ x. x.0) (sym (step w));
        sent = λ v w e.
            ap (λ x. x.1.redis) (step v)
            ∙ h.sent (at v) (at w) (redis v ∙ e ∙ sym (redis w))
            ∙ ap (λ x. x.1.redis) (sym (step w));
      }

  -- What RequestOtp replies, and what it sends to Redis, does not depend on the tables: from two
  -- states in which the same commands were sent to Redis, it gives the same result and has sent
  -- the same commands, whether or not the number has an account.
  pub request_otp-IsBlind :
      (phone : String) (client_ip : Option String) → IsBlind (request_otp phone client_ip)
  unfolding request_otp
  request_otp-IsBlind phone client_ip = >>=-IsBlind _ _ (validate_phone-IsBlind phone) (λ p.
      >>=-IsBlind _ _ (check_ip-IsBlind client_ip) (λ _.
        >>=-IsBlind _ _ (seconds-IsBlind p env.settings.otp_rate_limit_seconds) (λ n.
          >>=-IsBlind _ _ (limit-IsBlind n) (λ _. issue_code-IsBlind p _ (
            >>=-IsBlind _ _ (mark_phone_sent-IsBlind p env.settings.otp_rate_limit_seconds)
              (λ _. pure-IsBlind _))))))
