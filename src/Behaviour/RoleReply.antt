-- ===== src/Behaviour/RoleReply.antt =====
-- commands/change_role.py: the reply on every branch.
use diddifree_id.Prelude.{
  ℕ, ◌+◌, ◌≡◌, sym, subst, String, true, false, Option, none, some, arith, inl, inr, Option-cases,
  Bool-cases,
}
use diddifree_id.Domain.Access.{UserRole, role_of_value, role_eq, requested_eq}
use diddifree_id.Domain.Entities.{User, needs_kyc_for}
use diddifree_id.Platform.Environment.{Env}
use diddifree_id.Platform.Monad.{
  World, Result, refusal, ok, invalid_role, user_not_found, field, no_details,
}
use diddifree_id.Application.Payloads.{Profile, profile_payload}
use diddifree_id.Infra.Users.{user_by_id}
use diddifree_id.Infra.Users.Save.{save_found}
use diddifree_id.Refinement.Lookup.{user_by_id_self}
use diddifree_id.Commands.ChangeRole.{change_role}

-- What became of the account: nothing, a request that waits for a decision, or the role.
pub data IsGranted (target : UserRole) (a : User) : User → Type 0 where
  requested_before :
      needs_kyc_for a target ≡ true
      → requested_eq a.requested_role target ≡ true
      → IsGranted target a a
  queued :
      needs_kyc_for a target ≡ true
      → requested_eq a.requested_role target ≡ false
      → IsGranted target a (record a { requested_role = some target })
  held_before : needs_kyc_for a target ≡ false → role_eq a.role target ≡ true → IsGranted target a a
  granted :
      needs_kyc_for a target ≡ false
      → role_eq a.role target ≡ false
      → IsGranted target a (record a { role = target; requested_role = none })

-- A reply, and why it is given.
pub data IsRoleReply ⦃env : Env⦄ (user_id : ℕ) (text : String) (w : World)
    : Result Profile → Type 0 where
  unknown_role :
      role_of_value text ≡ none
      → IsRoleReply user_id text w (refusal 422 invalid_role (field "role"))
  no_account :
      {target : UserRole}
      → role_of_value text ≡ some target
      → user_by_id user_id w.db.users ≡ none
      → IsRoleReply user_id text w (refusal 404 user_not_found no_details)
  answered :
      {target : UserRole} {a after : User}
      → role_of_value text ≡ some target
      → user_by_id user_id w.db.users ≡ some a
      → IsGranted target a after
      → IsRoleReply user_id text w (ok (profile_payload after))

module _ ⦃env : Env⦄ (user_id : ℕ) (text : String) (reason : Option String) (by : Option ℕ)
    (w : World) where
  module _ (target : UserRole) (a : User) (e : role_of_value text ≡ some target)
      (f : user_by_id user_id w.db.users ≡ some a) where
    queued_reply :
        needs_kyc_for a target ≡ true
        → requested_eq a.requested_role target ≡ false
        → (change_role user_id text reason by w).0
          ≡ ok (profile_payload (record a { requested_role = some target }))
    unfolding change_role profile_payload
    queued_reply n q =
        let saved =
          save_found (record a { requested_role = some target }) (record w { draws = w.draws + 1 })
            a (user_by_id_self user_id w.db.users f) in
        ground (arith, e, f, n, q, saved)

    granted_reply :
        needs_kyc_for a target ≡ false
        → role_eq a.role target ≡ false
        → (change_role user_id text reason by w).0
          ≡ ok (profile_payload (record a { role = target; requested_role = none }))
    unfolding change_role profile_payload
    granted_reply n q =
        let saved =
          save_found (record a { role = target; requested_role = none })
            (record w { draws = w.draws + 1 }) a (user_by_id_self user_id w.db.users f) in
        ground (arith, e, f, n, q, saved)

    found_reply : IsRoleReply user_id text w (change_role user_id text reason by w).0
    unfolding change_role
    found_reply =
        let IsReply = IsRoleReply user_id text w in
        elim (Bool-cases (needs_kyc_for a target)) [
          | inl n ↦ elim (Bool-cases (requested_eq a.requested_role target)) [
            | inl q ↦
                subst IsReply (ground (arith, e, f, n, q)) (answered e f (requested_before n q))
            | inr q ↦ subst IsReply (sym (queued_reply n q)) (answered e f (queued n q))
          ]
          | inr n ↦ elim (Bool-cases (role_eq a.role target)) [
            | inl q ↦ subst IsReply (ground (arith, e, f, n, q)) (answered e f (held_before n q))
            | inr q ↦ subst IsReply (sym (granted_reply n q)) (answered e f (granted n q))
          ]
        ]

  -- The reply to a change of role, on every branch: 422 for a role that is unknown, 404 for an
  -- account that is not there, and else a profile: the account as it is if it has the role or a
  -- request for it is pending, with the request if the role needs a decision, and with the role
  -- and no request if it does not.
  pub change_role-IsRoleReply : IsRoleReply user_id text w (change_role user_id text reason by w).0
  unfolding change_role
  change_role-IsRoleReply = elim (Option-cases (role_of_value text)) [
    | inl e ↦ subst (IsRoleReply user_id text w) (ground (arith, e)) (unknown_role e)
    | inr (target, e) ↦ elim (Option-cases (user_by_id user_id w.db.users)) [
      | inl f ↦ subst (IsRoleReply user_id text w) (ground (arith, e, f)) (no_account e f)
      | inr (a, f) ↦ found_reply target a e f
    ]
  ]
