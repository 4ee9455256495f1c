-- ===== src/Scripts/Migrate/Runs.antt =====
-- A run of the migration, and the run after it.
use diddifree_id.Prelude.{
  ◌≡◌, refl, sym, ◌∙◌, subst, Bool, true, false, is_some, List, [], ◌∷◌, ◌++◌, inl, inr, arith, All,
  find_first, find_first-append_one,
}
use diddifree_id.Domain.Access.{UserRole, UserStatus}
use diddifree_id.Domain.Entities.{User}
use diddifree_id.Platform.Database.{Db}
use diddifree_id.Infra.Users.{has_id, has_phone, add_user}
use diddifree_id.Scripts.Migrate.{
  SourceRow, Report, migrated_row, migrate_row, migrate_rows, migrate, empty_report,
}
use diddifree_id.Scripts.Migrate.Laws.{
  IsSettled, IsAccepted-or_IsSettled, migrate_row_settled, migrate_row_added,
}

-- A row that is found stays found when a row is added.
is_some-append_one :
    (q : User → Bool) (us : List User) (u : User)
    → is_some (find_first q us) ≡ true
    → is_some (find_first q (us ++ u ∷ [])) ≡ true
is_some-append_one q us u h = ground (arith, h, find_first-append_one q us u)

found-append_one :
    (q : User → Bool) (us : List User) (u : User)
    → q u ≡ true
    → is_some (find_first q (us ++ u ∷ [])) ≡ true
found-append_one q us u h = ground (arith, h, find_first-append_one q us u)

IsSettled-add_user :
    (s : SourceRow) (u : User) (db : Db) → IsSettled s db → IsSettled s (add_user u db)
unfolding add_user
IsSettled-add_user s u db (inl h) = inl h
IsSettled-add_user s u db (inr (inl h)) = inr (inl h)
IsSettled-add_user s u db (inr (inr (inl h))) =
    inr (inr (inl (is_some-append_one (has_id s.id) db.users u h)))
IsSettled-add_user s u db (inr (inr (inr h))) =
    inr (inr (inr (is_some-append_one (has_phone s.phone) db.users u h)))

added-IsSettled :
    (s : SourceRow) (r : UserRole) (t : UserStatus) (db : Db)
    → IsSettled s (add_user (migrated_row s r t) db)
unfolding add_user
added-IsSettled s r t db =
    inr (inr (inl (found-append_one (has_id s.id) db.users (migrated_row s r t) (ground arith))))

-- A round settles its row, and unsettles no other.
settles : (s : SourceRow) (rep : Report) (db : Db) → IsSettled s (migrate_row false s rep db).1
settles s rep db = elim (IsAccepted-or_IsSettled s db) [
  | inl (r, (t, a)) ↦
      subst (IsSettled s) (sym (migrate_row_added s rep db a)) (added-IsSettled s r t db)
  | inr h ↦ subst (IsSettled s) (sym (migrate_row_settled false s rep db h).0) h
]

keeps_IsSettled :
    (s o : SourceRow) (rep : Report) (db : Db)
    → IsSettled o db
    → IsSettled o (migrate_row false s rep db).1
keeps_IsSettled s o rep db k = elim (IsAccepted-or_IsSettled s db) [
  | inl (r, (t, a)) ↦
      subst (IsSettled o) (sym (migrate_row_added s rep db a))
        (IsSettled-add_user o (migrated_row s r t) db k)
  | inr h ↦ subst (IsSettled o) (sym (migrate_row_settled false s rep db h).0) k
]

stays-IsSettled :
    (ss : List SourceRow) (o : SourceRow) (rep : Report) (db : Db)
    → IsSettled o db
    → IsSettled o (migrate_rows false ss rep db).1
unfolding migrate_rows
stays-IsSettled [] o rep db k = k
stays-IsSettled (s ∷ ss) o rep db k =
    let next = migrate_row false s rep db in
    stays-IsSettled ss o next.0 next.1 (keeps_IsSettled s o rep db k)

all-IsSettled :
    (ss : List SourceRow) (rep : Report) (db : Db)
    → All (λ s. IsSettled s (migrate_rows false ss rep db).1) ss
unfolding migrate_rows
all-IsSettled [] rep db = tt
all-IsSettled (s ∷ ss) rep db =
    let next = migrate_row false s rep db in
    (stays-IsSettled ss s next.0 next.1 (settles s rep db), all-IsSettled ss next.0 next.1)

-- A run over settled rows.
run_settled :
    (dry : Bool) (ss : List SourceRow) (rep : Report) (db : Db)
    → All (λ s. IsSettled s db) ss
    → ((migrate_rows dry ss rep db).1 ≡ db)
      × ((migrate_rows dry ss rep db).0.migrated ≡ rep.migrated)
unfolding migrate_rows
run_settled dry [] rep db h = (refl, refl)
run_settled dry (s ∷ ss) rep db h =
    let next = migrate_row dry s rep db in
    let (e, m) = migrate_row_settled dry s rep db h.0 in
    let (f, n) =
      run_settled dry ss next.0 next.1 (subst (λ d. All (λ o. IsSettled o d) ss) (sym e) h.1) in
    (f ∙ e, n ∙ m)

-- A second run of the migration over the same rows changes no table and migrates no account.
pub migrate_again :
    (rows : List SourceRow) (db : Db)
    → let after = (migrate false rows db).1 in
      ((migrate false rows after).1 ≡ after) × ((migrate false rows after).0.migrated ≡ 0)
unfolding migrate
migrate_again rows db =
    run_settled false rows empty_report (migrate_rows false rows empty_report db).1
      (all-IsSettled rows empty_report db)
