-- ===== src/Infra/Otps/Laws.antt =====
-- What the statements on the codes do to the row with an id, and to no other table.
use diddifree_id.Prelude.{
  ℕ, ◌+◌, ◌≡◌, refl, none, some, arith, find_first, find_first-update_where, find_first-holds,
}
use diddifree_id.Domain.Entities.{OtpCode}
use diddifree_id.Platform.Database.{Db}
use diddifree_id.Platform.Environment.{Env}
use diddifree_id.Platform.Monad.{World, ok}
use diddifree_id.Infra.Otps.{has_otp_id, count_attempt, add_attempt, consume_code, mark_consumed}

module _ (i : ℕ) (db : Db) where
  pub users-add_attempt : (add_attempt i db).users ≡ db.users
  unfolding add_attempt
  users-add_attempt = refl

  pub users-consume_code : (t : ℕ) → (consume_code i t db).users ≡ db.users
  unfolding consume_code
  users-consume_code t = refl

  pub find-add_attempt :
      (o : OtpCode)
      → find_first (has_otp_id i) db.otp_codes ≡ some o
      → find_first (has_otp_id i) (add_attempt i db).otp_codes ≡ some (count_attempt o)
  unfolding add_attempt
  find-add_attempt o h = ground (
    arith,
    h,
    find_first-holds (has_otp_id i) db.otp_codes h,
    find_first-update_where (has_otp_id i) (has_otp_id i) count_attempt db.otp_codes (λ a. refl),
  )

module _ ⦃env : Env⦄ where
  -- A code that is not consumed yet is consumed.
  pub mark_consumed_open :
      (i : ℕ) (w : World) (o : OtpCode)
      → find_first (has_otp_id i) w.db.otp_codes ≡ some o
      → o.consumed_at ≡ none
      → mark_consumed i w
        ≡ (ok tt, record w { db = consume_code i (env.clock w.draws) w.db; draws = w.draws + 1 })
  unfolding mark_consumed
  mark_consumed_open i w o h c = ground (arith, h, c)
