-- ===== src/Platform/Database.antt =====
-- identity_app/modules/identity/infra/models.py: the five tables of the schema `identity`. A row
-- is the entity that it projects to; rows stand in the order of their insertion.
use diddifree_id.Prelude.{List, []}
use diddifree_id.Domain.Entities.{User, OtpCode, RefreshToken, UserStatusChange, UserRoleChange}

pub record Db : Type 0 where
  pub users : List User
  pub otp_codes : List OtpCode
  pub refresh_tokens : List RefreshToken
  pub user_status_history : List UserStatusChange
  pub user_role_history : List UserRoleChange

abbrev pub empty_db : Db
empty_db = record {
  users = [];
  otp_codes = [];
  refresh_tokens = [];
  user_status_history = [];
  user_role_history = [];
}
