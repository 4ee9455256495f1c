-- ===== src/Behaviour/StatusReply.antt =====
-- commands/change_status.py: the reply on every branch.
use diddifree_id.Prelude.{ℕ, ◌≡◌, String, true, false, none, some}
use diddifree_id.Domain.Access.{UserStatus, status_of_value, is_admin_settable, can_transition}
use diddifree_id.Domain.Entities.{User}
use diddifree_id.Platform.Environment.{Env}
use diddifree_id.Platform.Monad.{
  World, Result, refusal, ok, invalid_status, status_not_settable, user_not_found,
  invalid_status_transition, field, no_details, transition,
}
use diddifree_id.Application.Payloads.{Profile, profile_payload}
use diddifree_id.Infra.Users.{user_by_id}

-- A reply, and why it is given. The last one is the profile with the new status.
pub data IsStatusReply ⦃env : Env⦄ (user_id : ℕ) (text : String) (w : World)
    : Result Profile → Type 0 where
  unknown_status :
      status_of_value text ≡ none
      → IsStatusReply user_id text w (refusal 422 invalid_status (field "status"))
  not_settable :
      {target : UserStatus}
      → status_of_value text ≡ some target
      → is_admin_settable target ≡ false
      → IsStatusReply user_id text w (refusal 422 status_not_settable (field "status"))
  no_account :
      {target : UserStatus}
      → status_of_value text ≡ some target
      → is_admin_settable target ≡ true
      → user_by_id user_id w.db.users ≡ none
      → IsStatusReply user_id text w (refusal 404 user_not_found no_details)
  not_allowed :
      {target : UserStatus} {a : User}
      → status_of_value text ≡ some target
      → is_admin_settable target ≡ true
      → user_by_id user_id w.db.users ≡ some a
      → can_transition a.status target ≡ false
      → IsStatusReply user_id text w
          (refusal 409 invalid_status_transition (transition a.status target))
  changed :
      {target : UserStatus} {a : User}
      → status_of_value text ≡ some target
      → is_admin_settable target ≡ true
      → user_by_id user_id w.db.users ≡ some a
      → can_transition a.status target ≡ true
      → IsStatusReply user_id text w (ok (profile_payload (record a { status = target })))
