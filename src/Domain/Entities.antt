-- ===== src/Domain/Entities.antt =====
-- identity_app/modules/identity/domain/entities.py: the dataclasses. Ids are the 128-bit numbers
-- of UUIDs, and instants are microseconds since the epoch.
use diddifree_id.Prelude.{ℕ, String, Bool, ◌&&◌, not, Option, is_some, leb, ltb}
use diddifree_id.Domain.Access.{UserRole, UserStatus, role_eq, is_kyc_required}

pub record User : Type 0 where
  pub id : ℕ
  pub phone : String
  pub role : UserRole
  pub status : UserStatus
  pub full_name : Option String
  pub password_hash : Option String
  pub requested_role : Option UserRole
  pub created_at : Option ℕ
  pub updated_at : Option ℕ

unfoldable pub needs_kyc_for : User → UserRole → Bool
unfolding is_kyc_required
needs_kyc_for u target_role = is_kyc_required target_role && not (role_eq u.role target_role)

pub record OtpCode : Type 0 where
  pub id : ℕ
  pub phone : String
  pub code_hash : String
  pub expires_at : ℕ
  pub created_at : ℕ
  pub consumed_at : Option ℕ
  pub attempts : ℕ

unfoldable pub is_expired : OtpCode → ℕ → Bool
is_expired o now = leb o.expires_at now

pub record RefreshToken : Type 0 where
  pub id : ℕ
  pub user_id : ℕ
  pub token_hash : String
  pub expires_at : ℕ
  pub created_at : ℕ
  pub device_info : Option String
  pub revoked_at : Option ℕ

unfoldable pub is_usable : RefreshToken → ℕ → Bool
is_usable t now = not (is_some t.revoked_at) && ltb now t.expires_at

pub record UserStatusChange : Type 0 where
  pub id : ℕ
  pub user_id : ℕ
  pub to_status : UserStatus
  pub changed_at : ℕ
  pub from_status : Option UserStatus
  pub reason : Option String
  pub changed_by : Option ℕ

pub record UserRoleChange : Type 0 where
  pub id : ℕ
  pub user_id : ℕ
  pub changed_at : ℕ
  pub from_role : Option UserRole
  pub to_role : Option UserRole
  pub requested_role : Option UserRole
  pub reason : Option String
  pub changed_by : Option ℕ
