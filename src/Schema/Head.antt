-- ===== src/Schema/Head.antt =====
-- alembic/versions beside models.py: the two revisions as `alembic upgrade head` and `alembic
-- downgrade base` run them, in the order of their down_revision.
use mathlib.Core.List.{Perm}
use mathlib.Core.List as List
use diddifree_id.Prelude.{true, some, List, [], ◌∷◌, ◌++◌, ◌≡◌, refl, All, find_first, arith}
use diddifree_id.Prelude.Lists.{filter, take, drop}
use diddifree_id.Platform.Database.{Db, empty_db}
use diddifree_id.Schema.{Table, Store, Statement, any, named, ◌>>◌}
use diddifree_id.Schema.Revisions.{
  users_table, requested_role_column, upgrade_initial, downgrade_initial, upgrade_kyc,
  downgrade_kyc,
}
use diddifree_id.Schema.Models.{
  models, user_model, otp_code_model, refresh_token_model, role_history_model, status_history_model,
  include_object,
}
use diddifree_id.Schema.Laws.{
  IsForeign, any-ensure, head_tables, prepared, with_tables, previous_rows, no_rows,
  upgrade_initial_lem, upgrade_kyc_lem, downgrade_kyc_lem, downgrade_initial_lem,
}

-- The revisions from none to the last one, and back.
unfoldable pub upgrade_head : Statement
upgrade_head = upgrade_initial >> upgrade_kyc

unfoldable pub downgrade_base : Statement
downgrade_base = downgrade_kyc >> downgrade_initial

upgrade_head_lem :
    (s : Store)
    → All IsForeign s.tables
    → upgrade_head s ≡ some (with_tables head_tables (prepared s))
unfolding upgrade_head
upgrade_head_lem s foreign = ground (
  arith,
  upgrade_initial_lem s foreign,
  upgrade_kyc_lem (prepared s) foreign (any-ensure "identity" s.schemas),
)

-- On a database whose tables stand in other schemas and reference nothing in the schema identity,
-- the revisions apply one after the other, and undone in reverse order, whatever rows the service
-- wrote meanwhile, they leave the tables that were there before and no row of the service. The
-- extension and the schema stay.
pub downgrade_base-upgrade_head :
    (s : Store) (db : Db)
    → All IsForeign s.tables
    → (s' : Store) × (upgrade_head s ≡ some s')
      × (downgrade_base (record s' { rows = db }) ≡ some (record (prepared s) { rows = empty_db }))
unfolding downgrade_base no_rows previous_rows
downgrade_base-upgrade_head s db foreign =
    let s' : Store = record (prepared s) { rows = db } in
    (
      with_tables head_tables (prepared s),
      upgrade_head_lem s foreign,
      ground (
        arith,
        downgrade_kyc_lem s' foreign,
        downgrade_initial_lem (record s' { rows = previous_rows db }) foreign,
      ),
    )

-- The objects of a database that autogenerate compares with the models.
abbrev pub included : List Table → List Table
included = filter (λ t. include_object "table" t.schema t.name)

-- A table beside the one that a model declares: columns and indexes in any order.
pub record IsTableOf (m t : Table) : Type 0 where
  pub columns : Perm t.columns m.columns
  pub indexes : Perm t.indexes m.indexes
  pub primary_key : t.primary_key ≡ m.primary_key
  pub uniques : t.uniques ≡ m.uniques
  pub foreign_keys : t.foreign_keys ≡ m.foreign_keys

-- Every model has its table, and every table its model.
pub record AreModels (tables : List Table) : Type 0 where
  pub present :
      All
        (λ m. (t : Table) × (find_first (named m.schema m.name) tables ≡ some t) × IsTableOf m t)
        models
  pub known : All (λ t. any (named t.schema t.name) models ≡ true) tables

included_foreign : (tables : List Table) → All IsForeign tables → included tables ≡ []
unfolding filter include_object any
included_foreign [] h = refl
included_foreign (t ∷ ts) h = ground (arith, h.0.elsewhere, included_foreign ts h.1)

included_head :
    (tables : List Table) → All IsForeign tables → included (head_tables ++ tables) ≡ head_tables
unfolding filter include_object any
included_head tables foreign = rw (included_foreign tables foreign) refl

same {ℓ} : {A : Type ℓ} (xs : List A) → Perm xs xs
same xs = ∣ List.Permᴰ.refl xs ∣₁

-- The column that came last stands in the middle of its model.
moved_column : Perm (users_table.columns ++ requested_role_column ∷ []) user_model.columns
unfolding take drop
moved_column =
    ∣ List.Permᴰ.append_left (take 6 users_table.columns)
      (List.Permᴰ.middle requested_role_column (drop 6 users_table.columns) []) ∣₁

head_tables-AreModels : AreModels head_tables
unfolding any find_first
head_tables-AreModels =
    let as_declared : (t : Table) → IsTableOf t t = λ t. record {
      columns = same t.columns;
      indexes = same t.indexes;
      primary_key = refl;
      uniques = refl;
      foreign_keys = refl;
    } in
    record {
      present = (
        (
          _,
          refl,
          record {
            columns = moved_column;
            indexes = same _;
            primary_key = refl;
            uniques = refl;
            foreign_keys = refl;
          },
        ),
        (
          (_, refl, as_declared otp_code_model),
          (
            (_, refl, as_declared refresh_token_model),
            (
              (_, refl, as_declared role_history_model),
              ((_, refl, as_declared status_history_model), tt),
            ),
          ),
        ),
      );
      known = (refl, (refl, (refl, (refl, (refl, tt)))));
    }

-- On a database whose tables stand in other schemas and reference nothing in the schema identity,
-- the revisions create what the models declare: of the tables that autogenerate looks at, each is
-- that of a model, and every model finds its table, with the same columns and indexes in some
-- order and the same primary key, unique columns and foreign keys.
pub upgrade_head-AreModels :
    (s : Store)
    → All IsForeign s.tables
    → (s' : Store) × (upgrade_head s ≡ some s') × AreModels (included s'.tables)
upgrade_head-AreModels s foreign = (
  with_tables head_tables (prepared s),
  upgrade_head_lem s foreign,
  rw (included_head s.tables foreign) head_tables-AreModels,
)
