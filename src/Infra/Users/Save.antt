-- ===== src/Infra/Users/Save.antt =====
-- What `save` writes: over the row with the id, or as a new row.
use diddifree_id.Prelude.{◌+◌, ◌≡◌, none, some, arith}
use diddifree_id.Domain.Entities.{User}
use diddifree_id.Platform.Environment.{Env}
use diddifree_id.Platform.Monad.{World, ok}
use diddifree_id.Infra.Users.{user_by_id, user_by_phone, new_row, put_user, add_user, save}

module _ ⦃env : Env⦄ (u : User) (w : World) where
  pub save_found :
      (row : User)
      → user_by_id u.id w.db.users ≡ some row
      → save u w ≡ (
        ok (record u { updated_at = some (env.clock w.draws) }),
        record w { db = put_user u (env.clock w.draws) w.db; draws = w.draws + 1 },
      )
  unfolding save
  save_found row h = ground (arith, h)

  pub save_new :
      user_by_id u.id w.db.users ≡ none
      → user_by_phone u.phone w.db.users ≡ none
      → save u w ≡ (
        ok (record u { updated_at = some (env.clock w.draws) }),
        record w { db = add_user (new_row u (env.clock w.draws)) w.db; draws = w.draws + 1 },
      )
  unfolding save
  save_new h p = ground (arith, h, p)
