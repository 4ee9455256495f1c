-- ===== src/Refinement/RequestOtp.antt =====
-- commands/request_otp.py beside the lifecycle.
use diddifree_id.Prelude.{
  ◌+◌, ◌≡◌, ◌⊎◌, ◌<◌, refl, sym, ◌∙◌, subst, String, Option, true, none, some, arith, Option-cases,
  Bool-cases, inl, inr,
}
use diddifree_id.Domain.Entities.{User}
use diddifree_id.Platform.Environment.{Env}
use diddifree_id.Platform.Settings.{timedelta_seconds}
use diddifree_id.Platform.Monad.{World}
use diddifree_id.Application.Validation.{strip_spaces, is_e164}
use diddifree_id.Infra.Users.{user_by_phone}
use diddifree_id.Infra.Otps.{add_code}
use diddifree_id.Infra.Security.{six_digits, hash_otp_code}
use diddifree_id.Commands.RequestOtp.{request_otp, new_code}
use diddifree_id.Lifecycle.{Change, keep, code_issued}
use diddifree_id.Lifecycle.Fresh.{IsFresh, DrawnIn}

module _ ⦃env : Env⦄ (phone : String) (ip : Option String) (w : World) where
  -- Whatever Redis answers, the request stops before the table of codes, or saves one code.
  committed-request :
      (u : User)
      → is_e164 (strip_spaces phone) ≡ true
      → user_by_phone (strip_spaces phone) w.db.users ≡ some u
      → ((request_otp phone ip w).1.committed ≡ w.committed)
        ⊎ (w.draws + 2 < (request_otp phone ip w).1.draws)
          × ((request_otp phone ip w).1.committed
              ≡ add_code
                  (new_code
                    (env.uuid4 (w.draws + 2))
                    (strip_spaces phone)
                    (hash_otp_code (six_digits (env.random_below (w.draws + 1) 1000000)))
                    (env.clock w.draws + timedelta_seconds env.settings.otp_code_lifetime_seconds)
                    (env.clock w.draws))
                  w.db)
  unfolding request_otp
  committed-request u v p = ground (arith, v, p)

  committed-unknown :
      is_e164 (strip_spaces phone) ≡ true
      → user_by_phone (strip_spaces phone) w.db.users ≡ none
      → (request_otp phone ip w).1.committed ≡ w.committed
  unfolding request_otp
  committed-unknown v p = ground (arith, v, p)

  -- On a session with nothing to write and new ids to draw, a request for a code, whatever it
  -- replies, leaves committed tables that one step `Change` of the lifecycle makes of those
  -- before it (keeping them is a step); a new id was drawn by the command.
  pub request_otp-Change :
      w.committed ≡ w.db
      → IsFresh w
      → Change
          (DrawnIn w.draws (request_otp phone ip w).1.draws)
          w.db
          (request_otp phone ip w).1.committed
  unfolding request_otp
  request_otp-Change clean fresh = elim (Bool-cases (is_e164 (strip_spaces phone))) [
    | inr v ↦ rw (v, clean) keep
    | inl v ↦ elim (Option-cases (user_by_phone (strip_spaces phone) w.db.users)) [
      | inl p ↦
          subst (Change (DrawnIn w.draws (request_otp phone ip w).1.draws) w.db)
            (sym (committed-unknown v p ∙ clean)) keep
      | inr (u, p) ↦ elim (committed-request u v p) [
        | inl e ↦
            subst (Change (DrawnIn w.draws (request_otp phone ip w).1.draws) w.db) (sym (e ∙ clean))
              keep
        | inr (d, e) ↦
            subst (Change (DrawnIn w.draws (request_otp phone ip w).1.draws) w.db) (sym e) (
              code_issued _
                (record { draw = w.draws + 2; after = omega arith; before = d; id = refl })
                (fresh.codes (w.draws + 2) (omega arith)) refl refl)
      ]
    ]
  ]
