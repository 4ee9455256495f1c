-- ===== src/Schema/Models.antt =====
-- identity_app/modules/identity/infra/models.py, as SQLAlchemy declares the tables, and
-- alembic/env.py: which objects of a database autogenerate compares with them.
use diddifree_id.Prelude.{
  String, Bool, true, false, none, some, List, [], ◌∷◌, str_eq, if◌then◌else◌,
}
use diddifree_id.Schema.{any, uuid, text, timestamp, small_integer, varchar, Table, Index}
use diddifree_id.Schema.Revisions.{column, of_user}

abbrev pub index : String → String → Index
index name column = record { name = name; column = column }

abbrev pub user_model : Table
user_model = record {
  schema = "identity";
  name = "users";
  columns =
      column "id" uuid (some "uuid_generate_v4()") false
      ∷ column "phone" (varchar 20) none false
      ∷ column "full_name" (varchar 120) none true
      ∷ column "password_hash" text none true
      ∷ column "role" (varchar 20) (some "'user'") false
      ∷ column "status" (varchar 20) (some "'pending_verification'") false
      ∷ column "requested_role" (varchar 20) none true
      ∷ column "created_at" timestamp (some "now()") false
      ∷ column "updated_at" timestamp (some "now()") false
      ∷ [];
  primary_key = "id" ∷ [];
  uniques = "phone" ∷ [];
  foreign_keys = [];
  indexes = index "idx_users_phone" "phone" ∷ index "idx_users_role" "role" ∷ [];
}

abbrev pub otp_code_model : Table
otp_code_model = record {
  schema = "identity";
  name = "otp_codes";
  columns =
      column "id" uuid (some "uuid_generate_v4()") false
      ∷ column "phone" (varchar 20) none false
      ∷ column "code_hash" text none false
      ∷ column "expires_at" timestamp none false
      ∷ column "consumed_at" timestamp none true
      ∷ column "attempts" small_integer (some "0") false
      ∷ column "created_at" timestamp (some "now()") false
      ∷ [];
  primary_key = "id" ∷ [];
  uniques = [];
  foreign_keys = [];
  indexes = index "idx_otp_phone" "phone" ∷ [];
}

abbrev pub refresh_token_model : Table
refresh_token_model = record {
  schema = "identity";
  name = "refresh_tokens";
  columns =
      column "id" uuid (some "uuid_generate_v4()") false
      ∷ column "user_id" uuid none false
      ∷ column "token_hash" text none false
      ∷ column "device_info" (varchar 200) none true
      ∷ column "revoked_at" timestamp none true
      ∷ column "expires_at" timestamp none false
      ∷ column "created_at" timestamp (some "now()") false
      ∷ [];
  primary_key = "id" ∷ [];
  uniques = [];
  foreign_keys = of_user ∷ [];
  indexes = index "idx_refresh_user" "user_id" ∷ index "idx_refresh_token_hash" "token_hash" ∷ [];
}

abbrev pub role_history_model : Table
role_history_model = record {
  schema = "identity";
  name = "user_role_history";
  columns =
      column "id" uuid (some "uuid_generate_v4()") false
      ∷ column "user_id" uuid none false
      ∷ column "from_role" (varchar 20) none true
      ∷ column "to_role" (varchar 20) none true
      ∷ column "requested_role" (varchar 20) none true
      ∷ column "reason" text none true
      ∷ column "changed_by" uuid none true
      ∷ column "changed_at" timestamp (some "now()") false
      ∷ [];
  primary_key = "id" ∷ [];
  uniques = [];
  foreign_keys = of_user ∷ [];
  indexes = index "idx_role_history_user" "user_id" ∷ [];
}

abbrev pub status_history_model : Table
status_history_model = record {
  schema = "identity";
  name = "user_status_history";
  columns =
      column "id" uuid (some "uuid_generate_v4()") false
      ∷ column "user_id" uuid none false
      ∷ column "from_status" (varchar 30) none true
      ∷ column "to_status" (varchar 30) none false
      ∷ column "reason" text none true
      ∷ column "changed_by" uuid none true
      ∷ column "changed_at" timestamp (some "now()") false
      ∷ [];
  primary_key = "id" ∷ [];
  uniques = [];
  foreign_keys = of_user ∷ [];
  indexes = [];
}

-- `Base.metadata`
abbrev pub models : List Table
models =
    user_model ∷ otp_code_model ∷ refresh_token_model ∷ role_history_model ∷ status_history_model
    ∷ []

-- `INCLUDE_SCHEMAS`
abbrev include_schemas : List String
include_schemas = "identity" ∷ []

-- `include_object`, by the type of the object, its schema and its name.
unfoldable pub include_object : String → String → String → Bool
unfolding any
include_object type schema name =
    if str_eq type "table"
    then any (str_eq schema) include_schemas
    else if str_eq type "schema"
    then any (str_eq name) include_schemas
    else true
