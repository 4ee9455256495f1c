-- ===== src/Tests/Catalogue.antt =====
-- alembic/ at work on a cluster that another project already uses.
use diddifree_id.Prelude.{none, some, [], ◌∷◌, ◌≡◌, refl, All, false}
use diddifree_id.Platform.Database.{empty_db}
use diddifree_id.Schema.{Table, Store, uuid, any}
use diddifree_id.Schema.Revisions.{column, downgrade_kyc}
use diddifree_id.Schema.Laws.{IsForeign, head_tables, initial_tables, prepared, with_tables}
use diddifree_id.Schema.Head.{
  upgrade_head, downgrade_base, downgrade_base-upgrade_head, AreModels, included,
  upgrade_head-AreModels,
}
use diddifree_id.Schema.Rows.{IsPrevious, downgrade_kyc-IsPrevious}
use diddifree_id.Tests.Demo.{tables}

-- `ride.users`: the name is taken, in another schema.
abbrev riders : Table
riders = record {
  schema = "ride";
  name = "users";
  columns = column "id" uuid none false ∷ [];
  primary_key = "id" ∷ [];
  uniques = [];
  foreign_keys = [];
  indexes = [];
}

abbrev shared : Store
shared = record { extensions = []; schemas = "ride" ∷ []; tables = riders ∷ []; rows = empty_db }

shared-IsForeign : All IsForeign shared.tables
unfolding any
shared-IsForeign = (record { elsewhere = refl; unrelated = refl }, tt)

downgrade_base-upgrade_head_example :
    (s' : Store) × (upgrade_head shared ≡ some s')
    × (downgrade_base (record s' { rows = tables })
        ≡ some (record (prepared shared) { rows = empty_db }))
downgrade_base-upgrade_head_example = downgrade_base-upgrade_head shared tables shared-IsForeign

upgrade_head-AreModels_example :
    (s' : Store) × (upgrade_head shared ≡ some s') × AreModels (included s'.tables)
upgrade_head-AreModels_example = upgrade_head-AreModels shared shared-IsForeign

abbrev at_head : Store
at_head = record shared { rows = tables }

downgrade_kyc-IsPrevious_example :
    (s' : Store) × (downgrade_kyc (with_tables head_tables at_head) ≡ some s')
    × (s'.tables ≡ (with_tables initial_tables at_head).tables)
    × IsPrevious at_head.rows s'.rows
downgrade_kyc-IsPrevious_example = downgrade_kyc-IsPrevious at_head shared-IsForeign
