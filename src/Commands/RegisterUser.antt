-- ===== src/Commands/RegisterUser.antt =====
-- commands/register_user.py
use diddifree_id.Prelude.{ℕ, String, Option, none, some, str_eq, is_some, if◌then◌else◌}
use diddifree_id.Domain.Access.{UserRole, UserStatus, status_value}
use diddifree_id.Domain.Entities.{User}
use diddifree_id.Platform.Environment.{Env}
use diddifree_id.Platform.Monad.{
  M, ◌>>=◌, ◌>>◌, pure, raise, raise_if, now, new_id, no_details, phone_already_registered,
}
use diddifree_id.Platform.Session.{commit}
use diddifree_id.Application.Validation.{validate_phone}
use diddifree_id.Infra.Users.{find_by_phone, save}

pub record RegisterReply : Type 0 where
  pub user_id : String
  pub phone : String
  pub status : String

-- `full_name or None`
abbrev pub name_or_none : Option String → Option String
name_or_none none = none
name_or_none (some n) = if str_eq n "" then none else some n

-- The account that `RegisterUser` creates.
abbrev pub new_user : ℕ → String → Option String → ℕ → User
new_user id phone full_name created_at = record {
  id = id;
  phone = phone;
  role = UserRole.user;
  status = UserStatus.pending_verification;
  full_name = name_or_none full_name;
  password_hash = none;
  requested_role = none;
  created_at = some created_at;
  updated_at = none;
}

module _ ⦃env : Env⦄ where
  unfoldable pub register_user : String → Option String → M RegisterReply
  unfolding validate_phone find_by_phone
  register_user raw_phone full_name = do
    phone ← validate_phone raw_phone
    known ← find_by_phone phone
    raise_if (is_some known) (raise 409 phone_already_registered no_details)
    id ← new_id
    t ← now
    u ← save (new_user id phone full_name t)
    commit
    pure (record { user_id = env.uuid_text u.id; phone = u.phone; status = status_value u.status })
