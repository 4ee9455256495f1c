-- ===== src/Scripts/Migrate/DryRun.antt =====
-- A dry run of the migration beside the run that it announces.
use diddifree_id.Prelude.{
  ◌≡◌, ◌≢◌, refl, sym, ◌∙◌, subst, true, false, List, [], ◌∷◌, inl, inr, arith, All,
  find_first-append_one, eq_iff, str_eq, ◌==◌,
}
use diddifree_id.Domain.Access.{UserRole, UserStatus}
use diddifree_id.Platform.Database.{Db}
use diddifree_id.Infra.Users.{user_by_id, user_by_phone, has_id, has_phone, add_user}
use diddifree_id.Scripts.Migrate.{
  SourceRow, Report, migrated_row, migrate_row, migrate_rows, migrate, empty_report,
}
use diddifree_id.Scripts.Migrate.Laws.{
  IsAccepted-or_IsSettled, migrate_row_settled, migrate_row_added,
}

-- Rows with ids and phones of their own.
abbrev pub AreApart : SourceRow → SourceRow → Type 0
AreApart s o = (s.id ≢ o.id) × (s.phone ≢ o.phone)

abbrev pub AreDistinct : List SourceRow → Type 0
AreDistinct [] = Unit
AreDistinct (s ∷ ss) = All (AreApart s) ss × AreDistinct ss

-- Two tables that answer alike about a row.
abbrev AgreeOn : Db → Db → SourceRow → Type 0
AgreeOn d e s =
    (user_by_id s.id d.users ≡ user_by_id s.id e.users)
    × (user_by_phone s.phone d.users ≡ user_by_phone s.phone e.users)

-- A dry round writes nothing.
dry_row : (s : SourceRow) (rep : Report) (db : Db) → (migrate_row true s rep db).1 ≡ db
unfolding migrate_row
dry_row s rep db = ground arith

-- The report of a round depends on the table by two lookups only.
report_agrees :
    (s : SourceRow) (rep : Report) (d e : Db)
    → AgreeOn d e s
    → (migrate_row true s rep d).0 ≡ (migrate_row false s rep e).0
unfolding migrate_row
report_agrees s rep d e h = ground (arith, h.0, h.1)

-- A row that is added does not show in the lookups of a row apart from it.
added_apart :
    (s o : SourceRow) (r : UserRole) (t : UserStatus) (d e : Db)
    → AreApart s o
    → AgreeOn d e o
    → AgreeOn d (add_user (migrated_row s r t) e) o
unfolding add_user
added_apart s o r t d e a h =
    let u = migrated_row s r t in
    let i : (s.id == o.id) ≡ false = ground (arith, a.0) in
    let p : str_eq s.phone o.phone ≡ false = ground (arith, a.1, eq_iff s.phone o.phone) in
    (
      h.0 ∙ ground (arith, find_first-append_one (has_id o.id) e.users u, i),
      h.1 ∙ ground (arith, find_first-append_one (has_phone o.phone) e.users u, p),
    )

row_apart :
    (s o : SourceRow) (rep : Report) (d e : Db)
    → AreApart s o
    → AgreeOn d e o
    → AgreeOn (migrate_row true s rep d).1 (migrate_row false s rep e).1 o
row_apart s o rep d e a h = elim (IsAccepted-or_IsSettled s e) [
  | inl (r, (t, c)) ↦
      subst (λ x. AgreeOn x (migrate_row false s rep e).1 o) (sym (dry_row s rep d))
        (subst (λ x. AgreeOn d x o) (sym (migrate_row_added s rep e c))
          (added_apart s o r t d e a h))
  | inr k ↦
      subst (λ x. AgreeOn x (migrate_row false s rep e).1 o) (sym (dry_row s rep d))
        (subst (λ x. AgreeOn d x o) (sym (migrate_row_settled false s rep e k).0) h)
]

rows_apart :
    (s : SourceRow) (ss : List SourceRow) (rep : Report) (d e : Db)
    → All (AreApart s) ss
    → All (AgreeOn d e) ss
    → All (AgreeOn (migrate_row true s rep d).1 (migrate_row false s rep e).1) ss
rows_apart s [] rep d e a h = tt
rows_apart s (o ∷ ss) rep d e a h = (row_apart s o rep d e a.0 h.0, rows_apart s ss rep d e a.1 h.1)

runs_agree :
    (ss : List SourceRow) (rep : Report) (d e : Db)
    → AreDistinct ss
    → All (AgreeOn d e) ss
    → (migrate_rows true ss rep d).0 ≡ (migrate_rows false ss rep e).0
unfolding migrate_rows
runs_agree [] rep d e a h = refl
runs_agree (s ∷ ss) rep d e a h =
    let real = migrate_row false s rep e in
    let dry = migrate_row true s rep d in
    subst (λ x. (migrate_rows true ss x dry.1).0 ≡ (migrate_rows false ss real.0 real.1).0)
      (sym (report_agrees s rep d e h.0))
      (runs_agree ss real.0 dry.1 real.1 a.1 (rows_apart s ss rep d e a.0 h.1))

agree_self : (ss : List SourceRow) (db : Db) → All (AgreeOn db db) ss
agree_self [] db = tt
agree_self (s ∷ ss) db = ((refl, refl), agree_self ss db)

-- If no two rows of the source share an id or a phone, a dry run of the migration leaves the
-- tables as they are and gives the report that the real run gives.
pub migrate_dry_run :
    (rows : List SourceRow) (db : Db)
    → AreDistinct rows
    → ((migrate true rows db).1 ≡ db) × ((migrate true rows db).0 ≡ (migrate false rows db).0)
unfolding migrate
migrate_dry_run rows db a = (refl, runs_agree rows empty_report db db a (agree_self rows db))
