-- ===== src/Scripts/Migrate/Origin.antt =====
-- Where the accounts of the table come from after a migration.
use diddifree_id.Prelude.{
  ℕ, ◌+◌, ◌≡◌, refl, sym, ◌∙◌, ap, subst, false, none, some, String, eq_iff, List, [], ◌∷◌, ◌++◌,
  ◌⊎◌, inl, inr, arith, All, All-map,
}
use mathlib.Core.List.{append_assoc, append-nil}
use diddifree_id.Domain.Access.{UserRole, UserStatus}
use diddifree_id.Domain.Entities.{User}
use diddifree_id.Platform.Database.{Db}
use diddifree_id.Infra.Users.{add_user}
use diddifree_id.Scripts.Migrate.{
  SourceRow, Report, role_map, status_map, migrated_row, migrate_row, migrate_rows, migrate,
  empty_report,
}
use diddifree_id.Scripts.Migrate.Laws.{
  length, IsAccepted-or_IsSettled, migrate_row_accepted, migrate_row_settled, migrate_row_added,
}

abbrev pub Any : (SourceRow → Type 0) → List SourceRow → Type 0
Any P [] = ⊥
Any P (s ∷ ss) = P s ⊎ Any P ss

-- What becomes of a role and of a status of DiddiGo.
pub data IsRoleOf (text : String) : UserRole → Type 0 where
  passenger : text ≡ "passenger" → IsRoleOf text UserRole.user
  driver : text ≡ "driver" → IsRoleOf text UserRole.driver
  admin : text ≡ "admin" → IsRoleOf text UserRole.admin

pub data IsStatusOf (text : String) : UserStatus → Type 0 where
  active : text ≡ "active" → IsStatusOf text UserStatus.active
  suspended : text ≡ "suspended" → IsStatusOf text UserStatus.suspended
  unverified : text ≡ "pending_verification" → IsStatusOf text UserStatus.pending_verification

role_map-IsRoleOf : (text : String) (r : UserRole) → role_map text ≡ some r → IsRoleOf text r
unfolding role_map
role_map-IsRoleOf text UserRole.user h = passenger (ground (arith, h, eq_iff text "passenger"))
role_map-IsRoleOf text UserRole.driver h = driver (ground (arith, h, eq_iff text "driver"))
role_map-IsRoleOf text UserRole.merchant h = absurd (ground (arith, h))
role_map-IsRoleOf text UserRole.admin h = admin (ground (arith, h, eq_iff text "admin"))

status_map-IsStatusOf :
    (text : String) (t : UserStatus) → status_map text ≡ some t → IsStatusOf text t
unfolding status_map
status_map-IsStatusOf text UserStatus.active h = active (ground (arith, h, eq_iff text "active"))
status_map-IsStatusOf text UserStatus.suspended h =
    suspended (ground (arith, h, eq_iff text "suspended"))
status_map-IsStatusOf text UserStatus.pending_verification h =
    unverified (ground (arith, h, eq_iff text "pending_verification"))
status_map-IsStatusOf text UserStatus.pending_kyc h = absurd (ground (arith, h))

-- An account that carries the id, the phone, the name, the password and the dates of a source row,
-- with the translation of its role and status.
pub record IsCopyOf (u : User) (s : SourceRow) : Type 0 where
  pub id : u.id ≡ s.id
  pub phone : u.phone ≡ s.phone
  pub full_name : u.full_name ≡ s.full_name
  pub password_hash : u.password_hash ≡ s.password_hash
  pub created_at : u.created_at ≡ some s.created_at
  pub updated_at : u.updated_at ≡ some s.updated_at
  pub requested_role : u.requested_role ≡ none
  pub role : IsRoleOf s.role u.role
  pub status : IsStatusOf s.status u.status

-- What a run appends to the accounts of a table, the other tables left as they are, and by how
-- much its count of migrated accounts goes up.
pub record IsAppended (rows : List SourceRow) (before after : Db) (from until : ℕ) : Type 0 where
  pub copies : List User
  pub appended : after ≡ record before { users = before.users ++ copies }
  pub counted : until ≡ length copies + from
  pub origin : All (λ u. Any (IsCopyOf u) rows) copies

Any-later :
    (s : SourceRow) (ss : List SourceRow) (us : List User)
    → All (λ u. Any (IsCopyOf u) ss) us
    → All (λ u. Any (IsCopyOf u) (s ∷ ss)) us
Any-later s ss us =
    All-map (λ u. Any (IsCopyOf u) ss) (λ u. Any (IsCopyOf u) (s ∷ ss)) us (λ u h. inr h)

copied :
    (s : SourceRow) (r : UserRole) (t : UserStatus)
    → role_map s.role ≡ some r
    → status_map s.status ≡ some t
    → IsCopyOf (migrated_row s r t) s
copied s r t p q = record {
  id = refl;
  phone = refl;
  full_name = refl;
  password_hash = refl;
  created_at = refl;
  updated_at = refl;
  requested_role = refl;
  role = role_map-IsRoleOf s.role r p;
  status = status_map-IsStatusOf s.status t q;
}

-- A run over the rest of the rows, after a round that wrote nothing.
later-IsAppended :
    (s : SourceRow) (ss : List SourceRow) {d e : Db} {m n : ℕ}
    → IsAppended ss d e m n
    → IsAppended (s ∷ ss) d e m n
later-IsAppended s ss a = record {
  copies = a.copies;
  appended = a.appended;
  counted = a.counted;
  origin = Any-later s ss a.copies a.origin;
}

-- A run over the rest of the rows, after a round that added a row.
added-IsAppended :
    (s : SourceRow) (u : User) (ss : List SourceRow) {d e : Db} {m n : ℕ}
    → IsCopyOf u s
    → IsAppended ss (add_user u d) e (m + 1) n
    → IsAppended (s ∷ ss) d e m n
unfolding add_user
added-IsAppended s u ss {d = d} c a = record {
  copies = u ∷ a.copies;
  appended =
      a.appended ∙ ap (λ us. record d { users = us }) (append_assoc d.users (u ∷ []) a.copies);
  counted = let h = a.counted in omega (arith, h);
  origin = (inl c, Any-later s ss a.copies a.origin);
}

rows_IsAppended :
    (ss : List SourceRow) (rep : Report) (db : Db)
    → IsAppended ss db
        (migrate_rows false ss rep db).1
        rep.migrated
        (migrate_rows false ss rep db).0.migrated
unfolding migrate_rows
rows_IsAppended [] rep db = record {
  copies = [];
  appended = ap (λ us. record db { users = us }) (sym (append-nil db.users));
  counted = omega arith;
  origin = tt;
}
rows_IsAppended (s ∷ ss) rep db =
    let next = migrate_row false s rep db in
    let rest = migrate_rows false ss next.0 next.1 in
    let a = rows_IsAppended ss next.0 next.1 in
    elim (IsAccepted-or_IsSettled s db) [
      | inl (r, (t, c)) ↦
          added-IsAppended s (migrated_row s r t) ss (copied s r t c.role_known c.status_known) (
            subst (λ d. IsAppended ss d rest.1 (rep.migrated + 1) rest.0.migrated)
              (migrate_row_added s rep db c)
              (subst (λ m. IsAppended ss next.1 rest.1 m rest.0.migrated)
                (ap (λ x. x.migrated) (migrate_row_accepted false s rep db c)) a))
      | inr k ↦ later-IsAppended s ss (
          subst (λ d. IsAppended ss d rest.1 rep.migrated rest.0.migrated)
            (migrate_row_settled false s rep db k).0
            (subst (λ m. IsAppended ss next.1 rest.1 m rest.0.migrated)
              (migrate_row_settled false s rep db k).1 a))
    ]

-- A run of the migration leaves the rows that were there and appends accounts, as many as it
-- counts as migrated. Each has the id, the phone, the name, the password and the dates of a row
-- of the source, no requested role, the role user for a passenger, driver for a driver or admin
-- for an admin, and the status active, suspended or pending_verification of that row.
pub migrate-IsAppended :
    (rows : List SourceRow) (db : Db)
    → IsAppended rows db (migrate false rows db).1 0 (migrate false rows db).0.migrated
unfolding migrate
migrate-IsAppended rows db = rows_IsAppended rows empty_report db
