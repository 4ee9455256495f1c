-- ===== src/Schema.antt =====
-- alembic/: the catalogue that the revisions of alembic/versions change, with the rows of the five
-- tables of the schema `identity` beside it, and the statements on it. A statement that PostgreSQL
-- refuses (a schema or a table that is missing, a name that is taken, a table that another one
-- references) ends a migration; a migration runs in one transaction.
pub mod Revisions
pub mod Models
pub mod Laws
pub mod Head
pub mod Rows
use diddifree_id.Prelude.{
  ℕ, String, Bool, true, false, ◌&&◌, ◌||◌, Option, none, some, List, [], ◌∷◌, ◌++◌, str_eq,
  is_some, if◌then◌else◌, update_where,
}
use diddifree_id.Domain.Access.{UserStatus, status_eq}
use diddifree_id.Domain.Entities.{User}
use diddifree_id.Platform.Database.{Db}

pub data ColumnType : Type 0 where
  uuid text timestamp small_integer : ColumnType
  varchar : ℕ → ColumnType

pub record Column : Type 0 where
  pub name : String
  pub type : ColumnType
  pub server_default : Option String
  pub nullable : Bool

-- A reference to a column of another table, with what a deletion there does here.
pub record ForeignKey : Type 0 where
  pub column : String
  pub schema : String
  pub table : String
  pub target : String
  pub ondelete : String

pub record Index : Type 0 where
  pub name : String
  pub column : String

pub record Table : Type 0 where
  pub schema : String
  pub name : String
  pub columns : List Column
  pub primary_key : List String
  pub uniques : List String
  pub foreign_keys : List ForeignKey
  pub indexes : List Index

-- A database: its extensions, its schemas, its tables, and the rows of this service.
pub record Store : Type 0 where
  pub extensions : List String
  pub schemas : List String
  pub tables : List Table
  pub rows : Db

abbrev pub named : String → String → Table → Bool
named schema name t = str_eq t.schema schema && str_eq t.name name

module _ {ℓ} {A : Type ℓ} where
  -- Whether a row of a list meets a test.
  unfoldable pub any : (A → Bool) → List A → Bool
  any p [] = false
  any p (x ∷ xs) = p x || any p xs

  -- The first row that meets a test, taken away or changed; none if there is none.
  unfoldable pub remove_first : (A → Bool) → List A → Option (List A)
  remove_first p [] = none
  remove_first p (x ∷ xs) =
      let rest = remove_first p xs in
      if p x then some xs else elim rest [ none ↦ none | some ys ↦ some (x ∷ ys) ]

  unfoldable pub change_first : (A → Bool) → (A → Option A) → List A → Option (List A)
  change_first p f [] = none
  change_first p f (x ∷ xs) =
      let rest = change_first p f xs in
      if p x
      then elim (f x) [ none ↦ none | some y ↦ some (y ∷ xs) ]
      else elim rest [ none ↦ none | some ys ↦ some (x ∷ ys) ]

abbrev pub Statement : Type 0
Statement = Store → Option Store

infixl 5 ◌>>◌
abbrev pub ◌>>◌ : Statement → Statement → Statement
◌>>◌ f g s = elim (f s) [ none ↦ none | some s' ↦ g s' ]

-- `IF NOT EXISTS`
unfoldable pub ensure : String → List String → List String
ensure name names = if any (str_eq name) names then names else name ∷ names

unfoldable pub create_extension : String → Statement
unfolding ensure
create_extension name s = some (record s { extensions = ensure name s.extensions })

unfoldable pub create_schema : String → Statement
unfolding ensure
create_schema name s = some (record s { schemas = ensure name s.schemas })

unfoldable pub put_tables : Option (List Table) → Statement
put_tables none s = none
put_tables (some tables) s = some (record s { tables = tables })

abbrev pub has_index : String → String → Table → Bool
has_index schema name t = str_eq t.schema schema && any (λ i. str_eq name i.name) t.indexes

abbrev pub refers_to : String → String → Table → Bool
refers_to schema name t =
    any (λ (k : ForeignKey). str_eq k.schema schema && str_eq k.table name) t.foreign_keys

-- `op.create_table`
unfoldable pub create_table : Table → Statement
unfolding any
create_table t s =
    if any (str_eq t.schema) s.schemas
    then if any (named t.schema t.name) s.tables
      then none
      else some (record s { tables = t ∷ s.tables })
    else none

-- What a dropped table, or a dropped column, takes with it.
unfoldable pub drop_rows : String → Db → Db
drop_rows name db =
    if str_eq name "users"
    then record db { users = [] }
    else if str_eq name "otp_codes"
    then record db { otp_codes = [] }
    else if str_eq name "refresh_tokens"
    then record db { refresh_tokens = [] }
    else if str_eq name "user_status_history"
    then record db { user_status_history = [] }
    else if str_eq name "user_role_history"
    then record db { user_role_history = [] }
    else db

unfoldable pub drop_requested : Db → Db
drop_requested db = record db {
  users = update_where (λ _. true) (λ u. record u { requested_role = none }) db.users;
}

-- `op.drop_table`, with the indexes of the table. A table that is still referenced stays.
unfoldable pub drop_table : String → String → Statement
unfolding remove_first any put_tables drop_rows
drop_table schema name s = elim (remove_first (named schema name) s.tables) [
  | none ↦ none
  | some rest ↦
      if any (refers_to schema name) rest
      then none
      else some (record s {
        tables = rest;
        rows = if str_eq schema "identity" then drop_rows name s.rows else s.rows;
      })
]

abbrev pub add_index : Index → Table → Option Table
add_index i t =
    if any (λ (c : Column). str_eq i.column c.name) t.columns
    then some (record t { indexes = t.indexes ++ i ∷ [] })
    else none

-- `op.create_index`: the name of an index is unique in its schema.
unfoldable pub create_index : String → String → String → String → Statement
unfolding any change_first put_tables
create_index name table column schema s =
    if any (has_index schema name) s.tables
    then none
    else put_tables
        (change_first (named schema table) (add_index (record { name = name; column = column }))
          s.tables)
        s

abbrev pub remove_index : String → Table → Option Table
remove_index name t = elim (remove_first (λ (i : Index). str_eq i.name name) t.indexes) [
  | none ↦ none
  | some rest ↦ some (record t { indexes = rest })
]

-- `op.drop_index`
unfoldable pub drop_index : String → String → String → Statement
unfolding change_first remove_first put_tables
drop_index name table schema s =
    put_tables (change_first (named schema table) (remove_index name) s.tables) s

abbrev pub append_column : Column → Table → Option Table
append_column c t =
    if any (λ (d : Column). str_eq c.name d.name) t.columns
    then none
    else some (record t { columns = t.columns ++ c ∷ [] })

-- `op.add_column`: the column comes last, and is null in each row.
unfoldable pub add_column : String → Column → String → Statement
unfolding any change_first put_tables
add_column table c schema s =
    put_tables (change_first (named schema table) (append_column c) s.tables) s

abbrev pub remove_column : String → Table → Option Table
remove_column name t = elim (remove_first (λ (c : Column). str_eq c.name name) t.columns) [
  | none ↦ none
  | some rest ↦ some (record t { columns = rest })
]

-- `op.drop_column`, of which the revisions have one: `requested_role`, whose values go with it.
unfoldable pub drop_column : String → String → String → Statement
unfolding change_first remove_first put_tables drop_requested
drop_column table name schema s =
    put_tables (change_first (named schema table) (remove_column name) s.tables) (record s {
      rows =
          if str_eq table "users" && str_eq name "requested_role"
          then drop_requested s.rows
          else s.rows;
    })

-- `UPDATE identity.users SET status = to WHERE status = from`
unfoldable pub update_status : UserStatus → UserStatus → Statement
update_status from to s = some (record s {
  rows = record s.rows {
    users =
        update_where (λ u. status_eq u.status from) (λ u. record u { status = to }) s.rows.users;
  };
})
