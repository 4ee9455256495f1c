-- ===== src/Commands/DecideKyc.antt =====
-- commands/decide_kyc.py
use diddifree_id.Prelude.{ℕ, String, Bool, Option, none, some, not, [], ◌∷◌, str_eq, if◌then◌else◌}
use diddifree_id.Domain.Access.{UserRole, UserStatus, status_eq, role_value}
use diddifree_id.Domain.Entities.{User}
use diddifree_id.Domain.Events.{user_updated, user_role_changed}
use diddifree_id.Platform.Environment.{Env}
use diddifree_id.Platform.Monad.{
  M, ◌>>=◌, ◌>>◌, pure, raise, or_raise, now, new_id, no_details, user_not_found, no_kyc_pending,
}
use diddifree_id.Platform.Session.{commit}
use diddifree_id.Application.Payloads.{Profile, profile_payload}
use diddifree_id.Infra.Users.{find_by_id, save, record_status_change, record_role_change}
use diddifree_id.Infra.Cache.{invalidate_user}
use diddifree_id.Infra.Bus.{publish}
use diddifree_id.Commands.Rows.{status_change, role_change}

-- `reason or (...)`
abbrev pub decision_reason : Option String → Bool → Option String
decision_reason none approved =
    some (if approved then "Décision KYC : accordé" else "Décision KYC : refusé")
decision_reason (some r) approved =
    if str_eq r ""
    then some (if approved then "Décision KYC : accordé" else "Décision KYC : refusé")
    else some r

-- The account that a decision leaves.
abbrev pub decided : User → Bool → UserRole → User
decided u approved requested = record u {
  requested_role = none;
  role = if approved then requested else u.role;
  status = if status_eq u.status UserStatus.pending_kyc then UserStatus.active else u.status;
}

module _ ⦃env : Env⦄ where
  -- The status row, if the status moved.
  record_release : User → User → Option String → Bool → Option ℕ → ℕ → M Unit
  unfolding record_status_change
  record_release account u reason approved decided_by t =
      if not (status_eq u.status account.status)
      then (do
        id ← new_id
        record_status_change (
            status_change id u.id account.status u.status (decision_reason reason approved)
              decided_by t))
      else pure tt

  announce_decision : Bool → User → User → M Unit
  unfolding publish
  announce_decision approved account u = do
    at ← now
    if approved
        then publish (
            user_role_changed
              (record { user_id = u.id; phone = u.phone; role = role_value u.role; at = at })
              (role_value account.role) (role_value u.role))
        else publish (
            user_updated
              (record { user_id = u.id; phone = u.phone; role = role_value u.role; at = at })
              ("requested_role" ∷ []))

  unfoldable pub decide_kyc : ℕ → Bool → Option String → Option ℕ → M Profile
  unfolding find_by_id record_release record_role_change invalidate_user announce_decision
  decide_kyc user_id approved reason decided_by = do
    found ← find_by_id user_id
    account ← or_raise found (raise 404 user_not_found no_details)
    requested ← or_raise account.requested_role (raise 409 no_kyc_pending no_details)
    t ← now
    u ← save (decided account approved requested)
    record_release account u reason approved decided_by t
    id ← new_id
    record_role_change (
        role_change id u.id account.role (if approved then some requested else none)
          (some requested) reason decided_by t)
    commit
    invalidate_user u.id
    announce_decision approved account u
    pure (profile_payload u)
