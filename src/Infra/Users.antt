-- ===== src/Infra/Users.antt =====
-- identity_app/modules/identity/infra/write_repository.py: `SqlAlchemyUserWriteRepository`.
pub mod Save
use diddifree_id.Prelude.{
  ℕ, String, Bool, Option, none, some, List, [], ◌∷◌, ◌++◌, is_some, or_else, find_first,
  update_where, str_eq, ◌==◌, if◌then◌else◌,
}
use diddifree_id.Domain.Entities.{User, UserStatusChange, UserRoleChange}
use diddifree_id.Platform.Database.{Db}
use diddifree_id.Platform.Environment.{Env}
use diddifree_id.Platform.Monad.{M, err, integrity_error, ◌>>=◌, ◌>>◌, pure, query, execute, now}

-- `UserModel.id == user_id`, `UserModel.phone == phone`
abbrev pub has_id : ℕ → User → Bool
has_id user_id u = u.id == user_id

abbrev pub has_phone : String → User → Bool
has_phone phone u = str_eq u.phone phone

abbrev pub user_by_id : ℕ → List User → Option User
user_by_id user_id = find_first (has_id user_id)

abbrev pub user_by_phone : String → List User → Option User
user_by_phone phone = find_first (has_phone phone)

unfoldable pub find_by_id : ℕ → M (Option User)
find_by_id user_id = query (λ db. user_by_id user_id db.users)

unfoldable pub find_by_phone : String → M (Option User)
find_by_phone phone = query (λ db. user_by_phone phone db.users)

-- The columns that `save` assigns on a row that is there: not the phone, nor `created_at`.
abbrev pub assign : User → ℕ → User → User
assign u t row = record row {
  full_name = u.full_name;
  password_hash = u.password_hash;
  role = u.role;
  status = u.status;
  requested_role = u.requested_role;
  updated_at = some t;
}

-- The row that `save` adds.
abbrev pub new_row : User → ℕ → User
new_row u t = record u { created_at = some (or_else u.created_at t); updated_at = some t }

-- The statements on the tables, as the repository flushes them.
unfoldable pub add_user : User → Db → Db
add_user row db = record db { users = db.users ++ row ∷ [] }

unfoldable pub put_user : User → ℕ → Db → Db
put_user u t db = record db { users = update_where (has_id u.id) (assign u t) db.users }

unfoldable pub add_status_change : UserStatusChange → Db → Db
add_status_change c db = record db { user_status_history = db.user_status_history ++ c ∷ [] }

unfoldable pub add_role_change : UserRoleChange → Db → Db
add_role_change c db = record db { user_role_history = db.user_role_history ++ c ∷ [] }

-- The flush of a row with a phone that another row has is refused: the column is unique.
insert_row : User → M Unit
insert_row row w =
    if is_some (user_by_phone row.phone w.db.users)
    then (err integrity_error, w)
    else execute (add_user row) w

write_row : Option User → User → ℕ → M Unit
unfolding insert_row
write_row none u t = insert_row (new_row u t)
write_row (some row) u t = execute (put_user u t)

unfoldable pub record_status_change : UserStatusChange → M Unit
record_status_change change = execute (add_status_change change)

unfoldable pub record_role_change : UserRoleChange → M Unit
record_role_change change = execute (add_role_change change)

module _ ⦃env : Env⦄ where
  unfoldable pub save : User → M User
  unfolding write_row
  save u = do
    row ← query (λ db. user_by_id u.id db.users)
    t ← now
    write_row row u t
    pure (record u { updated_at = some t })
