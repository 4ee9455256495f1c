-- ===== src/Scripts/Migrate.antt =====
-- scripts/migrate_from_diddigo.py: the accounts of DiddiGo, copied into the table of accounts.
pub mod Laws
pub mod Runs
pub mod DryRun
pub mod Origin
use diddifree_id.Prelude.{
  ℕ, ◌+◌, String, Bool, true, false, ◌||◌, not, Option, none, some, List, [], ◌∷◌, ◌++◌, str_eq,
  if◌then◌else◌,
}
use diddifree_id.Domain.Access.{UserRole, UserStatus}
use diddifree_id.Domain.Entities.{User}
use diddifree_id.Platform.Database.{Db}
use diddifree_id.Infra.Users.{user_by_id, user_by_phone, add_user}

-- A row of `auth.users`, as the query selects it.
pub record SourceRow : Type 0 where
  pub id : ℕ
  pub phone : String
  pub full_name : Option String
  pub password_hash : Option String
  pub role : String
  pub status : String
  pub created_at : ℕ
  pub updated_at : ℕ

-- `ROLE_MAP.get(role)`, `STATUS_MAP.get(status)`
unfoldable pub role_map : String → Option UserRole
role_map r =
    if str_eq r "passenger"
    then some UserRole.user
    else if str_eq r "driver"
    then some UserRole.driver
    else if str_eq r "admin"
    then some UserRole.admin
    else none

unfoldable pub status_map : String → Option UserStatus
status_map s =
    if str_eq s "active"
    then some UserStatus.active
    else if str_eq s "suspended"
    then some UserStatus.suspended
    else if str_eq s "pending_verification"
    then some UserStatus.pending_verification
    else none

-- A line of the report names an account by its phone and id, with what the line is about.
pub record Report : Type 0 where
  pub migrated : ℕ
  pub skipped_existing_id : List (String × ℕ)
  pub skipped_phone_taken : List (String × (ℕ × ℕ))
  pub unknown_role : List (String × (ℕ × String))
  pub unknown_status : List (String × (ℕ × String))

abbrev pub empty_report : Report
empty_report = record {
  migrated = 0;
  skipped_existing_id = [];
  skipped_phone_taken = [];
  unknown_role = [];
  unknown_status = [];
}

abbrev pub is_empty {ℓ} : {A : Type ℓ} → List A → Bool
is_empty [] = true
is_empty (x ∷ xs) = false

unfoldable pub has_blocking_issues : Report → Bool
has_blocking_issues r =
    not (is_empty r.unknown_role)
    || not (is_empty r.unknown_status)
    || not (is_empty r.skipped_phone_taken)

-- The row that the `INSERT` writes; the column `requested_role` is left out, so it is NULL.
abbrev pub migrated_row : SourceRow → UserRole → UserStatus → User
migrated_row s role status = record {
  id = s.id;
  phone = s.phone;
  role = role;
  status = status;
  full_name = s.full_name;
  password_hash = s.password_hash;
  requested_role = none;
  created_at = some s.created_at;
  updated_at = some s.updated_at;
}

-- The end of a round: the `INSERT`, unless the run is dry, and the count.
insert_row : Bool → SourceRow → UserRole → UserStatus → Report → Db → Report × Db
insert_row dry_run s role status rep db = (
  record rep { migrated = rep.migrated + 1 },
  if dry_run then db else add_user (migrated_row s role status) db,
)

check_phone : Bool → SourceRow → UserRole → UserStatus → Option User → Report → Db → Report × Db
unfolding insert_row
check_phone dry_run s role status none rep db = insert_row dry_run s role status rep db
check_phone dry_run s role status (some clash) rep db = (
  record rep { skipped_phone_taken = rep.skipped_phone_taken ++ (s.phone, (s.id, clash.id)) ∷ [] },
  db,
)

check_id : Bool → SourceRow → UserRole → UserStatus → Option User → Report → Db → Report × Db
unfolding check_phone
check_id dry_run s role status (some known) rep db =
    (record rep { skipped_existing_id = rep.skipped_existing_id ++ (s.phone, s.id) ∷ [] }, db)
check_id dry_run s role status none rep db =
    check_phone dry_run s role status (user_by_phone s.phone db.users) rep db

check_status : Bool → SourceRow → UserRole → Option UserStatus → Report → Db → Report × Db
unfolding check_id
check_status dry_run s role none rep db =
    (record rep { unknown_status = rep.unknown_status ++ (s.phone, (s.id, s.status)) ∷ [] }, db)
check_status dry_run s role (some status) rep db =
    check_id dry_run s role status (user_by_id s.id db.users) rep db

check_role : Bool → SourceRow → Option UserRole → Report → Db → Report × Db
unfolding check_status
check_role dry_run s none rep db =
    (record rep { unknown_role = rep.unknown_role ++ (s.phone, (s.id, s.role)) ∷ [] }, db)
check_role dry_run s (some role) rep db = check_status dry_run s role (status_map s.status) rep db

-- A round of the `for`, with its four `continue`.
unfoldable pub migrate_row : Bool → SourceRow → Report → Db → Report × Db
unfolding check_role role_map status_map
migrate_row dry_run s rep db = check_role dry_run s (role_map s.role) rep db

-- The `for`.
unfoldable pub migrate_rows : Bool → List SourceRow → Report → Db → Report × Db
migrate_rows dry_run [] rep db = (rep, db)
migrate_rows dry_run (s ∷ ss) rep db =
    let next = migrate_row dry_run s rep db in migrate_rows dry_run ss next.0 next.1

-- `migrate`, with the rows that the source returned: what was written is committed, or rolled back
-- after a dry run.
unfoldable pub migrate : Bool → List SourceRow → Db → Report × Db
migrate dry_run rows db =
    let done = migrate_rows dry_run rows empty_report db in (done.0, if dry_run then db else done.1)
