-- ===== src/Commands/ChangeRole.antt =====
-- commands/change_role.py
use diddifree_id.Prelude.{ℕ, String, Option, none, some, [], ◌∷◌, if◌then◌else◌}
use diddifree_id.Domain.Access.{UserRole, role_eq, requested_eq, role_of_value, role_value}
use diddifree_id.Domain.Entities.{User, needs_kyc_for}
use diddifree_id.Domain.Events.{user_updated, user_role_changed}
use diddifree_id.Platform.Environment.{Env}
use diddifree_id.Platform.Monad.{
  M, ◌>>=◌, ◌>>◌, pure, raise, or_raise, now, new_id, no_details, field, invalid_role,
  user_not_found,
}
use diddifree_id.Platform.Session.{commit}
use diddifree_id.Application.Payloads.{Profile, profile_payload}
use diddifree_id.Infra.Users.{find_by_id, save, record_role_change}
use diddifree_id.Infra.Cache.{invalidate_user}
use diddifree_id.Infra.Bus.{publish}
use diddifree_id.Commands.Rows.{role_change}

module _ ⦃env : Env⦄ where
  -- The branch of a role that needs a decision: the request is recorded, once.
  request_role : User → UserRole → Option String → Option ℕ → ℕ → M Profile
  unfolding record_role_change invalidate_user publish
  request_role account target reason changed_by t =
      if requested_eq account.requested_role target then pure (profile_payload account) else (do
        u ← save (record account { requested_role = some target })
        id ← new_id
        record_role_change (role_change id u.id account.role none (some target) reason changed_by t)
        commit
        invalidate_user u.id
        at ← now
        publish (
            user_updated
              (record { user_id = u.id; phone = u.phone; role = role_value u.role; at = at })
              ("requested_role" ∷ []))
        pure (profile_payload u))

  -- The branch of a role that is granted at once.
  grant_role : User → UserRole → Option String → Option ℕ → ℕ → M Profile
  unfolding record_role_change invalidate_user publish
  grant_role account target reason changed_by t =
      if role_eq account.role target then pure (profile_payload account) else (do
        u ← save (record account { role = target; requested_role = none })
        id ← new_id
        record_role_change (role_change id u.id account.role (some target) none reason changed_by t)
        commit
        invalidate_user u.id
        at ← now
        publish (
            user_role_changed
              (record { user_id = u.id; phone = u.phone; role = role_value target; at = at })
              (role_value account.role) (role_value target))
        pure (profile_payload u))

  unfoldable pub change_role : ℕ → String → Option String → Option ℕ → M Profile
  unfolding find_by_id needs_kyc_for request_role grant_role
  change_role user_id role reason changed_by = do
    target ← or_raise (role_of_value role) (raise 422 invalid_role (field "role"))
    found ← find_by_id user_id
    account ← or_raise found (raise 404 user_not_found no_details)
    t ← now
    if needs_kyc_for account target
        then request_role account target reason changed_by t
        else grant_role account target reason changed_by t
