-- ===== src/Tests/Scripts.antt =====
-- The theorems on the migration at work on three accounts of DiddiGo.
use diddifree_id.Prelude.{
  ℕ, ◌≡◌, ◌≢◌, arith, str_eq, eq_iff, refl, String, none, List, [], ◌∷◌, true, false,
}
use diddifree_id.Scripts.Migrate.{SourceRow, migrate}
use diddifree_id.Scripts.Migrate.DryRun.{AreDistinct, migrate_dry_run}
use diddifree_id.Scripts.Migrate.Origin.{IsAppended, migrate-IsAppended}
use diddifree_id.Tests.Demo.{tables}

abbrev source_row : ℕ → String → String → SourceRow
source_row id phone role = record {
  id = id;
  phone = phone;
  full_name = none;
  password_hash = none;
  role = role;
  status = "active";
  created_at = 1;
  updated_at = 1;
}

-- A new account, one whose number is taken, and one with a role that is not known.
abbrev source_rows : List SourceRow
source_rows =
    source_row 50 "+22890000050" "passenger"
    ∷ source_row 51 "+22890000001" "driver"
    ∷ source_row 52 "+22890000052" "owner"
    ∷ []

differ : (s t : String) → str_eq s t ≡ false → s ≢ t
differ s t f e = ground (arith, f, e, eq_iff s t)

source_rows-AreDistinct : AreDistinct source_rows
source_rows-AreDistinct = (
  (
    (λ e. omega (arith, e), differ "+22890000050" "+22890000001" refl),
    ((λ e. omega (arith, e), differ "+22890000050" "+22890000052" refl), tt),
  ),
  (((λ e. omega (arith, e), differ "+22890000001" "+22890000052" refl), tt), (tt, tt)),
)

migrate_dry_run_example :
    ((migrate true source_rows tables).1 ≡ tables)
    × ((migrate true source_rows tables).0 ≡ (migrate false source_rows tables).0)
migrate_dry_run_example = migrate_dry_run source_rows tables source_rows-AreDistinct

migrate-IsAppended_example :
    IsAppended source_rows tables
      (migrate false source_rows tables).1
      0
      (migrate false source_rows tables).0.migrated
migrate-IsAppended_example = migrate-IsAppended source_rows tables
