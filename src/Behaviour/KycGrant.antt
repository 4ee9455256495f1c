-- ===== src/Behaviour/KycGrant.antt =====
-- A role that needs a decision, requested and decided: commands/change_role.py and
-- commands/decide_kyc.py.
use diddifree_id.Prelude.{
  ℕ, ◌+◌, ◌≡◌, refl, sym, ◌∙◌, ap, subst, String, Bool, true, false, if◌then◌else◌, Option, none,
  some, arith, inl, inr, Bool-cases,
}
use diddifree_id.Domain.Access.{
  UserRole, UserStatus, status_eq, role_of_value, requested_eq, role_eq_iff,
}
use diddifree_id.Domain.Entities.{User, UserRoleChange, needs_kyc_for}
use diddifree_id.Platform.Database.{Db}
use diddifree_id.Platform.Environment.{Env}
use diddifree_id.Platform.Monad.{World, ok}
use diddifree_id.Application.Payloads.{profile_payload}
use diddifree_id.Infra.Users.{user_by_id, put_user, assign, add_role_change}
use diddifree_id.Infra.Users.Save.{save_found}
use diddifree_id.Refinement.Lookup.{user_by_id_self, id-user_by_id}
use diddifree_id.Refinement.ChangeRole.{committed-request}
use diddifree_id.Invariants.Columns.{put_hit}
use diddifree_id.Commands.ChangeRole.{change_role}
use diddifree_id.Commands.DecideKyc.{decide_kyc, decided}

module _ ⦃env : Env⦄ (user_id : ℕ) (approved : Bool) (reason : Option String) (by : Option ℕ)
    (w : World) where
  decided_reply :
      (a : User) (q : UserRole)
      → user_by_id user_id w.db.users ≡ some a
      → a.requested_role ≡ some q
      → (decide_kyc user_id approved reason by w).0 ≡ ok (profile_payload (decided a approved q))
  unfolding decide_kyc profile_payload
  decided_reply a q f p =
      let saved =
        save_found (decided a approved q) (record w { draws = w.draws + 1 }) a
          (user_by_id_self user_id w.db.users f) in
      ground (arith, f, p, saved)

-- The status of an account after a decision: active if it waited for one.
abbrev pub released : UserStatus → UserStatus
released UserStatus.pending_kyc = UserStatus.active
released UserStatus.pending_verification = UserStatus.pending_verification
released UserStatus.active = UserStatus.active
released UserStatus.suspended = UserStatus.suspended

-- The account after a decision: with the role that it asked for, or with the one it had.
abbrev pub after_decision : Bool → UserRole → User → User
after_decision true target a = record a {
  role = target;
  requested_role = none;
  status = released a.status;
}
after_decision false target a = record a { requested_role = none; status = released a.status }

released_lem :
    (s : UserStatus)
    → (if status_eq s UserStatus.pending_kyc then UserStatus.active else s) ≡ released s
released_lem UserStatus.pending_kyc = refl
released_lem UserStatus.pending_verification = refl
released_lem UserStatus.active = refl
released_lem UserStatus.suspended = refl

decided_lem :
    (a : User) (approved : Bool) (target : UserRole)
    → decided a approved target ≡ after_decision approved target a
decided_lem a true target =
    ap (λ s. record a { role = target; requested_role = none; status = s }) (released_lem a.status)
decided_lem a false target =
    ap (λ s. record a { requested_role = none; status = s }) (released_lem a.status)

pending_eq :
    (requested : Option UserRole) (target : UserRole)
    → requested_eq requested target ≡ true
    → requested ≡ some target
pending_eq none target h = absurd (ground (arith, h))
pending_eq (some q) target h = ap some ((role_eq_iff q target).0 h)

-- A table in which the request of an account is pending, its other columns as they were.
record IsPending ⦃env : Env⦄ (user_id : ℕ) (target : UserRole) (a : User) (db : Db) : Type 0 where
  row : User
  found : user_by_id user_id db.users ≡ some row
  pending : row.requested_role ≡ some target
  profile :
      (approved : Bool)
      → profile_payload (decided row approved target) ≡ profile_payload (decided a approved target)

module _ ⦃env : Env⦄ (user_id : ℕ) (text : String) (reason : Option String) (by : Option ℕ)
    (w : World) (clean : w.committed ≡ w.db) (target : UserRole) (a : User)
    (e : role_of_value text ≡ some target) (f : user_by_id user_id w.db.users ≡ some a)
    (n : needs_kyc_for a target ≡ true) where
  unchanged :
      requested_eq a.requested_role target ≡ true
      → (change_role user_id text reason by w).1.committed ≡ w.db
  unfolding change_role
  unchanged q = ground (arith, e, f, n, q, clean)

  requested_row :
      (t : ℕ) (c : UserRoleChange)
      → IsPending user_id target a
          (add_role_change c (put_user (record a { requested_role = some target }) t w.db))
  unfolding add_role_change profile_payload
  requested_row t c =
      let u = record a { requested_role = some target } in
      let i = id-user_by_id user_id w.db.users f in
      record {
        row = assign u t a;
        found = put_hit user_id t u a w.db (user_by_id_self user_id w.db.users f) i;
        pending = refl;
        profile = λ approved. refl;
      }

  -- What a change of role leaves of the account.
  after_request : IsPending user_id target a (change_role user_id text reason by w).1.committed
  after_request = elim (Bool-cases (requested_eq a.requested_role target)) [
    | inl q ↦ subst (IsPending user_id target a) (sym (unchanged q)) record {
      row = a;
      found = f;
      pending = pending_eq a.requested_role target q;
      profile = λ approved. refl;
    }
    | inr q ↦
        let g = user_by_id_self user_id w.db.users f in
        subst (IsPending user_id target a)
          (sym (committed-request user_id text reason by w target a e f g n q)) (requested_row _ _)
  ]

  -- A known role that needs a decision for an account of the table, asked for by a change of role
  -- and then decided on the tables that the change of role left: the KYC decision returns the
  -- profile of the account with that role if it approves and with the role of before if not, with
  -- no request pending, with the status active if it waited for the decision and else with the
  -- status of before. The change of role starts with nothing to write.
  pub change_role-decide_kyc :
      (approved : Bool) (remark : Option String) (admin : Option ℕ) (v : World)
      → v.db ≡ (change_role user_id text reason by w).1.committed
      → (decide_kyc user_id approved remark admin v).0
        ≡ ok (profile_payload (after_decision approved target a))
  change_role-decide_kyc approved remark admin v same =
      let p = subst (IsPending user_id target a) (sym same) after_request in
      decided_reply user_id approved remark admin v p.row target p.found p.pending
      ∙ ap ok (p.profile approved ∙ ap profile_payload (decided_lem a approved target))
