-- ===== src/Schema/Laws.antt =====
-- alembic/versions beside the catalogue: what the statements of the revisions do to a database whose
-- other tables have nothing to do with the schema `identity`.
use diddifree_id.Prelude.{
  String, Bool, true, false, none, some, List, [], ◌∷◌, ◌++◌, ◌≡◌, refl, str_eq, All, All-map,
  arith, eq_iff, ◌&&◌, update_where,
}
use diddifree_id.Domain.Access.{pending_kyc, pending_verification, status_eq}
use diddifree_id.Platform.Database.{Db, empty_db}
use diddifree_id.Schema.{
  ForeignKey, Table, Store, any, ensure, named, has_index, refers_to, remove_first, change_first,
  put_tables, drop_rows, drop_requested,
}
use diddifree_id.Schema.Models.{index}
use diddifree_id.Schema.Revisions.{
  requested_role_column, users_table, otp_codes_table, refresh_tokens_table, status_history_table,
  role_history_table, upgrade_initial, downgrade_initial, upgrade_kyc, downgrade_kyc,
}

-- A table of another schema, that references nothing in `identity`.
pub record IsForeign (t : Table) : Type 0 where
  pub elsewhere : str_eq t.schema "identity" ≡ false
  pub unrelated : any (λ (k : ForeignKey). str_eq k.schema "identity") t.foreign_keys ≡ false

module _ {ℓ} {A : Type ℓ} where
  any_none : (p : A → Bool) (xs : List A) → All (λ x. p x ≡ false) xs → any p xs ≡ false
  unfolding any
  any_none p [] h = refl
  any_none p (x ∷ xs) h = ground (arith, h.0, any_none p xs h.1)

  any_weaken :
      (p q : A → Bool) (xs : List A)
      → ((x : A) → p x ≡ false → q x ≡ false)
      → any p xs ≡ false
      → any q xs ≡ false
  unfolding any
  any_weaken p q [] w h = refl
  any_weaken p q (x ∷ xs) w h = ground (arith, w x, any_weaken p q xs w)

pub any-ensure :
    (name : String) (names : List String) → any (str_eq name) (ensure name names) ≡ true
unfolding ensure any
any-ensure name names = ground (arith, (eq_iff name name).1 refl)

module _ (base : List Table) (foreign : All IsForeign base) (name : String) where
  pub any-named : any (named "identity" name) base ≡ false
  any-named = any_none (named "identity" name) base (
      All-map IsForeign (λ t. named "identity" name t ≡ false) base
        (λ t h. ground (arith, h.elsewhere)) foreign)

  pub any-has_index : any (has_index "identity" name) base ≡ false
  any-has_index = any_none (has_index "identity" name) base (
      All-map IsForeign (λ t. has_index "identity" name t ≡ false) base
        (λ t h. ground (arith, h.elsewhere)) foreign)

  pub any-refers_to : any (refers_to "identity" name) base ≡ false
  any-refers_to = any_none (refers_to "identity" name) base (
      All-map IsForeign (λ t. refers_to "identity" name t ≡ false) base
        (λ t h.
          any_weaken (λ (k : ForeignKey). str_eq k.schema "identity")
            (λ (k : ForeignKey). str_eq k.schema "identity" && str_eq k.table name) t.foreign_keys
            (λ k e. ground (arith, e)) h.unrelated)
        foreign)

-- The tables that the initial revision creates, the latest one first.
abbrev pub initial_tables : List Table
initial_tables =
    status_history_table
    ∷ record refresh_tokens_table {
      indexes =
          index "idx_refresh_user" "user_id" ∷ index "idx_refresh_token_hash" "token_hash" ∷ [];
    }
    ∷ record otp_codes_table { indexes = index "idx_otp_phone" "phone" ∷ [] }
    ∷ record users_table {
      indexes = index "idx_users_phone" "phone" ∷ index "idx_users_role" "role" ∷ [];
    }
    ∷ []

-- The tables once the revision of the KYC gate is applied to them.
abbrev pub head_tables : List Table
head_tables =
    record role_history_table { indexes = index "idx_role_history_user" "user_id" ∷ [] }
    ∷ status_history_table
    ∷ record refresh_tokens_table {
      indexes =
          index "idx_refresh_user" "user_id" ∷ index "idx_refresh_token_hash" "token_hash" ∷ [];
    }
    ∷ record otp_codes_table { indexes = index "idx_otp_phone" "phone" ∷ [] }
    ∷ record users_table {
      columns = users_table.columns ++ requested_role_column ∷ [];
      indexes = index "idx_users_phone" "phone" ∷ index "idx_users_role" "role" ∷ [];
    }
    ∷ []

abbrev pub prepared : Store → Store
prepared s = record s {
  extensions = ensure "uuid-ossp" s.extensions;
  schemas = ensure "identity" s.schemas;
}

abbrev pub with_tables : List Table → Store → Store
with_tables tables s = record s { tables = tables ++ s.tables }

-- The rows that the downgrade from the KYC gate leaves.
unfoldable pub previous_rows : Db → Db
unfolding drop_requested
previous_rows db = record db {
  users =
      update_where (λ _. true) (λ u. record u { requested_role = none })
        (update_where (λ u. status_eq u.status pending_kyc)
          (λ u. record u { status = pending_verification }) db.users);
  user_role_history = [];
}

-- The rows that the downgrade of the initial revision leaves: those of the table that it does not
-- know.
unfoldable pub no_rows : Db → Db
no_rows db = record empty_db { user_role_history = db.user_role_history }

module _ (s : Store) (foreign : All IsForeign s.tables) where
  pub upgrade_initial_lem : upgrade_initial s ≡ some (with_tables initial_tables (prepared s))
  unfolding upgrade_initial any change_first put_tables
  upgrade_initial_lem = ground (
    arith,
    any-ensure "identity" s.schemas,
    any-named s.tables foreign "users",
    any-named s.tables foreign "otp_codes",
    any-named s.tables foreign "refresh_tokens",
    any-named s.tables foreign "user_status_history",
    any-has_index s.tables foreign "idx_users_phone",
    any-has_index s.tables foreign "idx_users_role",
    any-has_index s.tables foreign "idx_otp_phone",
    any-has_index s.tables foreign "idx_refresh_user",
    any-has_index s.tables foreign "idx_refresh_token_hash",
  )

  pub upgrade_kyc_lem :
      any (str_eq "identity") s.schemas ≡ true
      → upgrade_kyc (with_tables initial_tables s) ≡ some (with_tables head_tables s)
  unfolding upgrade_kyc any change_first put_tables
  upgrade_kyc_lem ready = ground (
    arith,
    ready,
    any-named s.tables foreign "user_role_history",
    any-has_index s.tables foreign "idx_role_history_user",
  )

  pub downgrade_kyc_lem :
      downgrade_kyc (with_tables head_tables s)
      ≡ some (with_tables initial_tables (record s { rows = previous_rows s.rows }))
  unfolding downgrade_kyc any change_first remove_first put_tables drop_rows previous_rows
  downgrade_kyc_lem = ground (arith, any-refers_to s.tables foreign "user_role_history")

  pub downgrade_initial_lem :
      downgrade_initial (with_tables initial_tables s) ≡ some (record s { rows = no_rows s.rows })
  unfolding downgrade_initial any change_first remove_first put_tables drop_rows no_rows
  downgrade_initial_lem = ground (
    arith,
    any-refers_to s.tables foreign "user_status_history",
    any-refers_to s.tables foreign "refresh_tokens",
    any-refers_to s.tables foreign "otp_codes",
    any-refers_to s.tables foreign "users",
  )
