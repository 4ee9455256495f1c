-- ===== src/Lifecycle/Fresh.antt =====
-- Ids of `uuid4`: those still to come, and those drawn in a stretch of draws.
use diddifree_id.Prelude.{ℕ, ◌≤◌, ◌<◌, ◌≡◌, none, find_first}
use diddifree_id.Platform.Environment.{Env}
use diddifree_id.Platform.Monad.{World}
use diddifree_id.Infra.Users.{user_by_id}
use diddifree_id.Infra.Otps.{has_otp_id}

pub record IsFresh ⦃env : Env⦄ (w : World) : Type 0 where
  pub users : (n : ℕ) → w.draws ≤ n → user_by_id (env.uuid4 n) w.db.users ≡ none
  pub codes : (n : ℕ) → w.draws ≤ n → find_first (has_otp_id (env.uuid4 n)) w.db.otp_codes ≡ none

-- An id that `uuid4` gave between two counts of the draws.
pub record DrawnIn ⦃env : Env⦄ (from until i : ℕ) : Type 0 where
  pub draw : ℕ
  pub after : from ≤ draw
  pub before : draw < until
  pub id : i ≡ env.uuid4 draw
