-- ===== src/Infra/Cache/Document.antt =====
-- The JSON object of a cached profile: what `set_user` writes and `get_user` reads.
use diddifree_id.Prelude.{ℕ, String, Option, none, some, or_else}
use diddifree_id.Domain.Access.{
  UserRole, UserStatus, role_value, status_value, role_of_value, status_of_value,
}
use diddifree_id.Domain.Entities.{User}
use diddifree_id.Platform.Redis.{ProfileDocument}
use diddifree_id.Platform.Environment.{Env}

infixl 5 ◌>>=◌
abbrev ◌>>=◌ : {A B : Type 0} → Option A → (A → Option B) → Option B
none >>= f = none
some a >>= f = f a

module _ ⦃env : Env⦄ where
  -- The JSON object that `set_user` writes.
  unfoldable pub to_document : User → ProfileDocument
  unfolding role_value status_value
  to_document u = record {
    id = some (env.uuid_text u.id);
    phone = some u.phone;
    full_name = some u.full_name;
    role = some (role_value u.role);
    status = some (status_value u.status);
    created_at = some u.created_at;
    updated_at = some u.updated_at;
  }

  -- The `User(...)` that `get_user` builds from the values of the object.
  abbrev cached_user : ProfileDocument → ℕ → String → Option String → UserRole → UserStatus → User
  cached_user d user_id phone full_name role status = record {
    id = user_id;
    phone = phone;
    role = role;
    status = status;
    full_name = full_name;
    password_hash = none;
    requested_role = none;
    created_at = or_else d.created_at none;
    updated_at = or_else d.updated_at none;
  }

  -- `none` is the `KeyError` of a missing key, or the `ValueError` of a value that is refused.
  unfoldable pub of_document : ProfileDocument → Option User
  of_document d = do
    id_text ← d.id
    user_id ← env.uuid_of_text id_text
    phone ← d.phone
    full_name ← d.full_name
    role_text ← d.role
    role ← role_of_value role_text
    status_text ← d.status
    status ← status_of_value status_text
    some (cached_user d user_id phone full_name role status)
