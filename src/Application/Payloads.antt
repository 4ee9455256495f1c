-- ===== src/Application/Payloads.antt =====
-- identity_app/modules/identity/application/payloads.py
use diddifree_id.Prelude.{String, Option, none, some}
use diddifree_id.Domain.Access.{UserRole, role_value, status_value}
use diddifree_id.Domain.Entities.{User}
use diddifree_id.Platform.Environment.{Env}

pub record Profile : Type 0 where
  pub id : String
  pub phone : String
  pub full_name : Option String
  pub role : String
  pub status : String
  pub requested_role : Option String

abbrev pub requested_value : Option UserRole → Option String
requested_value none = none
requested_value (some r) = some (role_value r)

module _ ⦃env : Env⦄ where
  unfoldable pub profile_payload : User → Profile
  profile_payload u = record {
    id = env.uuid_text u.id;
    phone = u.phone;
    full_name = u.full_name;
    role = role_value u.role;
    status = status_value u.status;
    requested_role = requested_value u.requested_role;
  }
