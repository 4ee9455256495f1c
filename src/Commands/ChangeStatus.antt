-- ===== src/Commands/ChangeStatus.antt =====
-- commands/change_status.py
use diddifree_id.Prelude.{ℕ, String, Option, not, if◌then◌else◌}
use diddifree_id.Domain.Access.{
  UserStatus, status_eq, status_of_value, status_value, role_value, is_admin_settable,
  can_transition,
}
use diddifree_id.Domain.Events.{user_status_changed}
use diddifree_id.Platform.Environment.{Env}
use diddifree_id.Platform.Monad.{
  M, ◌>>=◌, ◌>>◌, pure, raise, raise_if, or_raise, now, new_id, no_details, field, transition,
  invalid_status, status_not_settable, user_not_found, invalid_status_transition,
}
use diddifree_id.Platform.Session.{commit}
use diddifree_id.Application.Payloads.{Profile, profile_payload}
use diddifree_id.Infra.Users.{find_by_id, save, record_status_change}
use diddifree_id.Infra.Tokens.{revoke_all_for_user}
use diddifree_id.Infra.Cache.{invalidate_user}
use diddifree_id.Infra.Bus.{publish}
use diddifree_id.Commands.Rows.{status_change}

module _ ⦃env : Env⦄ where
  -- A suspension closes the sessions of the account.
  end_sessions : UserStatus → ℕ → M Unit
  unfolding revoke_all_for_user
  end_sessions target user_id =
      if status_eq target UserStatus.suspended
      then (do revoke_all_for_user user_id; pure tt)
      else pure tt

  unfoldable pub change_status : ℕ → String → Option String → Option ℕ → M Profile
  unfolding find_by_id record_status_change end_sessions invalidate_user publish
  change_status user_id status reason changed_by = do
    target ← or_raise (status_of_value status) (raise 422 invalid_status (field "status"))
    raise_if (not (is_admin_settable target)) (raise 422 status_not_settable (field "status"))
    found ← find_by_id user_id
    account ← or_raise found (raise 404 user_not_found no_details)
    raise_if (not (can_transition account.status target))
        (raise 409 invalid_status_transition (transition account.status target))
    t ← now
    u ← save (record account { status = target })
    id ← new_id
    record_status_change (status_change id u.id account.status target reason changed_by t)
    end_sessions target u.id
    commit
    invalidate_user u.id
    at ← now
    publish (
        user_status_changed
          (record { user_id = u.id; phone = u.phone; role = role_value u.role; at = at })
          (status_value account.status) (status_value target) reason)
    pure (profile_payload u)
