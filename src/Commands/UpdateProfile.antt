-- ===== src/Commands/UpdateProfile.antt =====
-- commands/update_profile.py
use diddifree_id.Prelude.{
  ℕ, String, Bool, true, false, Option, none, some, not, [], ◌∷◌, str_eq, if◌then◌else◌,
}
use diddifree_id.Domain.Access.{role_value}
use diddifree_id.Domain.Entities.{User}
use diddifree_id.Domain.Events.{user_updated}
use diddifree_id.Platform.Environment.{Env}
use diddifree_id.Platform.Monad.{
  M, ◌>>=◌, ◌>>◌, pure, raise, or_raise, now, no_details, user_not_found,
}
use diddifree_id.Platform.Session.{commit}
use diddifree_id.Application.Payloads.{Profile, profile_payload}
use diddifree_id.Infra.Users.{find_by_id, save}
use diddifree_id.Infra.Cache.{invalidate_user}
use diddifree_id.Infra.Bus.{publish}

-- `full_name is not None and full_name != user.full_name`
abbrev pub is_new_name : Option String → Option String → Bool
is_new_name none old = false
is_new_name (some n) none = true
is_new_name (some n) (some old) = not (str_eq n old)

module _ ⦃env : Env⦄ where
  rename : User → Option String → M Profile
  unfolding invalidate_user publish
  rename account full_name = do
    u ← save (record account { full_name = full_name })
    commit
    invalidate_user u.id
    at ← now
    publish (
        user_updated (record { user_id = u.id; phone = u.phone; role = role_value u.role; at = at })
          ("full_name" ∷ []))
    pure (profile_payload u)

  unfoldable pub update_profile : ℕ → Option String → M Profile
  unfolding find_by_id rename
  update_profile user_id full_name = do
    found ← find_by_id user_id
    account ← or_raise found (raise 404 user_not_found no_details)
    if is_new_name full_name account.full_name
        then rename account full_name
        else pure (profile_payload account)
