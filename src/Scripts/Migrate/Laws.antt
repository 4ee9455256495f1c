-- ===== src/Scripts/Migrate/Laws.antt =====
-- A round of the migration, by what becomes of its row.
use diddifree_id.Prelude.{
  ℕ, suc, ◌+◌, ◌≡◌, refl, Bool, true, false, none, some, is_some, List, [], ◌∷◌, ◌++◌, ◌⊎◌, inl,
  inr, Option-cases, arith,
}
use diddifree_id.Domain.Access.{UserRole, UserStatus}
use diddifree_id.Platform.Database.{Db}
use diddifree_id.Infra.Users.{user_by_id, user_by_phone, add_user}
use diddifree_id.Scripts.Migrate.{
  SourceRow, Report, role_map, status_map, migrated_row, migrate_row, migrate_rows, migrate,
  empty_report,
}

abbrev pub length {ℓ} : {A : Type ℓ} → List A → ℕ
length [] = 0
length (x ∷ xs) = suc (length xs)

-- A row that a run leaves alone: its role or its status has no translation, or its id or its phone
-- is in the table.
abbrev pub IsSettled : SourceRow → Db → Type 0
IsSettled s db =
    (role_map s.role ≡ none)
    ⊎ (status_map s.status ≡ none)
    ⊎ (is_some (user_by_id s.id db.users) ≡ true)
    ⊎ (is_some (user_by_phone s.phone db.users) ≡ true)

-- A row that a run takes over, with its role and status.
pub record IsAccepted (s : SourceRow) (role : UserRole) (status : UserStatus) (db : Db)
    : Type 0 where
  pub role_known : role_map s.role ≡ some role
  pub status_known : status_map s.status ≡ some status
  pub id_free : user_by_id s.id db.users ≡ none
  pub phone_free : user_by_phone s.phone db.users ≡ none

pub IsAccepted-or_IsSettled :
    (s : SourceRow) (db : Db)
    → ((r : UserRole) × ((t : UserStatus) × IsAccepted s r t db)) ⊎ IsSettled s db
IsAccepted-or_IsSettled s db = elim (Option-cases (role_map s.role)) [
  | inl e ↦ inr (inl e)
  | inr (r, e) ↦ elim (Option-cases (status_map s.status)) [
    | inl f ↦ inr (inr (inl f))
    | inr (t, f) ↦ elim (Option-cases (user_by_id s.id db.users)) [
      | inr (u, g) ↦ inr (inr (inr (inl (ground (arith, g)))))
      | inl g ↦ elim (Option-cases (user_by_phone s.phone db.users)) [
        | inr (u, h) ↦ inr (inr (inr (inr (ground (arith, h)))))
        | inl h ↦
            inl (r, (t, record { role_known = e; status_known = f; id_free = g; phone_free = h }))
      ]
    ]
  ]
]

module _ (dry : Bool) (s : SourceRow) (rep : Report) (db : Db) where
  pub migrate_row_accepted :
      {r : UserRole} {t : UserStatus}
      → IsAccepted s r t db
      → (migrate_row dry s rep db).0 ≡ record rep { migrated = rep.migrated + 1 }
  unfolding migrate_row
  migrate_row_accepted a = ground (arith, a.role_known, a.status_known, a.id_free, a.phone_free)

  pub migrate_row_settled :
      IsSettled s db
      → ((migrate_row dry s rep db).1 ≡ db) × ((migrate_row dry s rep db).0.migrated ≡ rep.migrated)
  unfolding migrate_row
  migrate_row_settled h = (ground (arith, h), ground (arith, h))

-- The table after an accepted row.
pub migrate_row_added :
    (s : SourceRow) (rep : Report) (db : Db) {r : UserRole} {t : UserStatus}
    → IsAccepted s r t db
    → (migrate_row false s rep db).1 ≡ add_user (migrated_row s r t) db
unfolding migrate_row
migrate_row_added s rep db a = ground (arith, a.role_known, a.status_known, a.id_free, a.phone_free)

-- The lines and the count of a report.
abbrev pub size : Report → ℕ
size r =
    r.migrated
    + length r.skipped_existing_id
    + length r.skipped_phone_taken
    + length r.unknown_role
    + length r.unknown_status

length-append_one {ℓ} : {A : Type ℓ} (xs : List A) (x : A) → length (xs ++ x ∷ []) ≡ suc (length xs)
length-append_one [] x = refl
length-append_one (y ∷ ys) x = ground (arith, length-append_one ys x)

size-migrate_row :
    (dry : Bool) (s : SourceRow) (rep : Report) (db : Db)
    → size (migrate_row dry s rep db).0 ≡ suc (size rep)
unfolding migrate_row
size-migrate_row dry s rep db = elim (Option-cases (user_by_phone s.phone db.users)) [
  | inl e ↦ ground (
    arith,
    e,
    length-append_one {0} rep.skipped_existing_id (s.phone, s.id),
    length-append_one {0} rep.unknown_role (s.phone, (s.id, s.role)),
    length-append_one {0} rep.unknown_status (s.phone, (s.id, s.status)),
  )
  | inr (u, e) ↦ ground (
    arith,
    e,
    length-append_one {0} rep.skipped_existing_id (s.phone, s.id),
    length-append_one {0} rep.skipped_phone_taken (s.phone, (s.id, u.id)),
    length-append_one {0} rep.unknown_role (s.phone, (s.id, s.role)),
    length-append_one {0} rep.unknown_status (s.phone, (s.id, s.status)),
  )
]

size-migrate_rows :
    (dry : Bool) (ss : List SourceRow) (rep : Report) (db : Db)
    → size (migrate_rows dry ss rep db).0 ≡ length ss + size rep
unfolding migrate_rows
size-migrate_rows dry [] rep db = omega arith
size-migrate_rows dry (s ∷ ss) rep db =
    let next = migrate_row dry s rep db in
    ground (arith, size-migrate_rows dry ss next.0 next.1, size-migrate_row dry s rep db)

-- The report of a run of the migration accounts for every row of the source once: the migrated
-- accounts and the four lists of skipped ones add up to the number of rows.
pub size-migrate :
    (dry : Bool) (rows : List SourceRow) (db : Db) → size (migrate dry rows db).0 ≡ length rows
unfolding migrate
size-migrate dry rows db = ground (arith, size-migrate_rows dry rows empty_report db)
