-- ===== src/Schema/Revisions.antt =====
-- alembic/versions: the two revisions, statement by statement.
use diddifree_id.Prelude.{String, Bool, true, false, Option, none, some, [], ◌∷◌}
use diddifree_id.Domain.Access.{pending_kyc, pending_verification}
use diddifree_id.Schema.{
  ColumnType, uuid, text, timestamp, small_integer, varchar, Column, ForeignKey, Table, Statement,
  ◌>>◌, create_extension, create_schema, create_table, create_index, drop_table, drop_index,
  add_column, drop_column, update_status,
}

-- The arguments of `sa.Column`.
abbrev pub column : String → ColumnType → Option String → Bool → Column
column name type default nullable = record {
  name = name;
  type = type;
  server_default = default;
  nullable = nullable;
}

-- `ForeignKeyConstraint(["user_id"], ["identity.users.id"], ondelete="CASCADE")`
abbrev pub of_user : ForeignKey
of_user = record {
  column = "user_id";
  schema = "identity";
  table = "users";
  target = "id";
  ondelete = "CASCADE";
}

abbrev pub users_table : Table
users_table = record {
  schema = "identity";
  name = "users";
  columns =
      column "id" uuid (some "uuid_generate_v4()") false
      ∷ column "phone" (varchar 20) none false
      ∷ column "full_name" (varchar 120) none true
      ∷ column "password_hash" text none true
      ∷ column "role" (varchar 20) (some "'user'") false
      ∷ column "status" (varchar 20) (some "'pending_verification'") false
      ∷ column "created_at" timestamp (some "now()") false
      ∷ column "updated_at" timestamp (some "now()") false
      ∷ [];
  primary_key = "id" ∷ [];
  uniques = "phone" ∷ [];
  foreign_keys = [];
  indexes = [];
}

abbrev pub otp_codes_table : Table
otp_codes_table = record {
  schema = "identity";
  name = "otp_codes";
  columns =
      column "id" uuid (some "uuid_generate_v4()") false
      ∷ column "phone" (varchar 20) none false
      ∷ column "code_hash" text none false
      ∷ column "expires_at" timestamp none false
      ∷ column "consumed_at" timestamp none true
      ∷ column "attempts" small_integer (some "0") false
      ∷ column "created_at" timestamp (some "now()") false
      ∷ [];
  primary_key = "id" ∷ [];
  uniques = [];
  foreign_keys = [];
  indexes = [];
}

abbrev pub refresh_tokens_table : Table
refresh_tokens_table = record {
  schema = "identity";
  name = "refresh_tokens";
  columns =
      column "id" uuid (some "uuid_generate_v4()") false
      ∷ column "user_id" uuid none false
      ∷ column "token_hash" text none false
      ∷ column "device_info" (varchar 200) none true
      ∷ column "revoked_at" timestamp none true
      ∷ column "expires_at" timestamp none false
      ∷ column "created_at" timestamp (some "now()") false
      ∷ [];
  primary_key = "id" ∷ [];
  uniques = [];
  foreign_keys = of_user ∷ [];
  indexes = [];
}

abbrev pub status_history_table : Table
status_history_table = record {
  schema = "identity";
  name = "user_status_history";
  columns =
      column "id" uuid (some "uuid_generate_v4()") false
      ∷ column "user_id" uuid none false
      ∷ column "from_status" (varchar 30) none true
      ∷ column "to_status" (varchar 30) none false
      ∷ column "reason" text none true
      ∷ column "changed_by" uuid none true
      ∷ column "changed_at" timestamp (some "now()") false
      ∷ [];
  primary_key = "id" ∷ [];
  uniques = [];
  foreign_keys = of_user ∷ [];
  indexes = [];
}

abbrev pub role_history_table : Table
role_history_table = record {
  schema = "identity";
  name = "user_role_history";
  columns =
      column "id" uuid (some "uuid_generate_v4()") false
      ∷ column "user_id" uuid none false
      ∷ column "from_role" (varchar 20) none true
      ∷ column "to_role" (varchar 20) none true
      ∷ column "requested_role" (varchar 20) none true
      ∷ column "reason" text none true
      ∷ column "changed_by" uuid none true
      ∷ column "changed_at" timestamp (some "now()") false
      ∷ [];
  primary_key = "id" ∷ [];
  uniques = [];
  foreign_keys = of_user ∷ [];
  indexes = [];
}

-- `upgrade` and `downgrade` of a1b2c3d4e5f6, the initial schema.
unfoldable pub upgrade_initial : Statement
unfolding create_extension create_schema create_table create_index
upgrade_initial =
    create_extension "uuid-ossp"
    >> create_schema "identity"
    >> create_table users_table
    >> create_index "idx_users_phone" "users" "phone" "identity"
    >> create_index "idx_users_role" "users" "role" "identity"
    >> create_table otp_codes_table
    >> create_index "idx_otp_phone" "otp_codes" "phone" "identity"
    >> create_table refresh_tokens_table
    >> create_index "idx_refresh_user" "refresh_tokens" "user_id" "identity"
    >> create_index "idx_refresh_token_hash" "refresh_tokens" "token_hash" "identity"
    >> create_table status_history_table

unfoldable pub downgrade_initial : Statement
unfolding drop_table drop_index
downgrade_initial =
    drop_table "identity" "user_status_history"
    >> drop_index "idx_refresh_token_hash" "refresh_tokens" "identity"
    >> drop_index "idx_refresh_user" "refresh_tokens" "identity"
    >> drop_table "identity" "refresh_tokens"
    >> drop_index "idx_otp_phone" "otp_codes" "identity"
    >> drop_table "identity" "otp_codes"
    >> drop_index "idx_users_role" "users" "identity"
    >> drop_index "idx_users_phone" "users" "identity"
    >> drop_table "identity" "users"

abbrev pub requested_role_column : Column
requested_role_column = column "requested_role" (varchar 20) none true

-- `upgrade` and `downgrade` of b2c3d4e5f6a7, the KYC gate and the audit of roles.
unfoldable pub upgrade_kyc : Statement
unfolding add_column create_table create_index
upgrade_kyc =
    add_column "users" requested_role_column "identity"
    >> create_table role_history_table
    >> create_index "idx_role_history_user" "user_role_history" "user_id" "identity"

unfoldable pub downgrade_kyc : Statement
unfolding update_status drop_index drop_table drop_column
downgrade_kyc =
    update_status pending_kyc pending_verification
    >> drop_index "idx_role_history_user" "user_role_history" "identity"
    >> drop_table "identity" "user_role_history"
    >> drop_column "users" "requested_role" "identity"
