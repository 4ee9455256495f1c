-- ===== src/Commands/Rows.antt =====
-- The rows that the commands build: `UserStatusChange(...)`, `UserRoleChange(...)` and
-- `RefreshToken(...)` with the arguments that they pass.
use diddifree_id.Prelude.{ℕ, String, Option, none, some}
use diddifree_id.Domain.Access.{UserRole, UserStatus}
use diddifree_id.Domain.Entities.{RefreshToken, UserStatusChange, UserRoleChange}

abbrev pub status_change :
    ℕ → ℕ → UserStatus → UserStatus → Option String → Option ℕ → ℕ → UserStatusChange
status_change id user_id from to reason changed_by changed_at = record {
  id = id;
  user_id = user_id;
  to_status = to;
  changed_at = changed_at;
  from_status = some from;
  reason = reason;
  changed_by = changed_by;
}

-- The row that a login and a rotation save.
abbrev pub new_session : ℕ → ℕ → String → Option String → ℕ → ℕ → RefreshToken
new_session id user_id token_hash device_info expires_at created_at = record {
  id = id;
  user_id = user_id;
  token_hash = token_hash;
  expires_at = expires_at;
  created_at = created_at;
  device_info = device_info;
  revoked_at = none;
}

abbrev pub role_change :
    ℕ
    → ℕ
    → UserRole
    → Option UserRole
    → Option UserRole
    → Option String
    → Option ℕ
    → ℕ
    → UserRoleChange
role_change id user_id from to requested reason changed_by changed_at = record {
  id = id;
  user_id = user_id;
  changed_at = changed_at;
  from_role = some from;
  to_role = to;
  requested_role = requested;
  reason = reason;
  changed_by = changed_by;
}
