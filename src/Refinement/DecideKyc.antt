-- ===== src/Refinement/DecideKyc.antt =====
-- commands/decide_kyc.py beside the lifecycle.
use diddifree_id.Prelude.{
  ℕ, ◌+◌, ◌≡◌, sym, subst, String, Option, Bool, false, none, some, arith, Option-cases, Bool-cases,
  inl, inr, if◌then◌else◌,
}
use diddifree_id.Domain.Access.{UserRole, UserStatus, status_eq, status_eq_iff}
use diddifree_id.Domain.Entities.{User}
use diddifree_id.Platform.Environment.{Env}
use diddifree_id.Platform.Monad.{World}
use diddifree_id.Infra.Users.{user_by_id, put_user, add_status_change, add_role_change}
use diddifree_id.Infra.Users.Save.{save_found}
use diddifree_id.Commands.Rows.{status_change, role_change}
use diddifree_id.Commands.DecideKyc.{decide_kyc, decided, decision_reason}
use diddifree_id.Lifecycle.{Change, keep, role_decided, role_decided_released}
use diddifree_id.Refinement.Lookup.{user_by_id_self}

status_decided :
    (a : User) (approved : Bool) (q : UserRole)
    → status_eq a.status UserStatus.pending_kyc ≡ false
    → (decided a approved q).status ≡ a.status
status_decided a approved q h = ground arith

module _ ⦃env : Env⦄ (user_id : ℕ) (approved : Bool) (r : Option String) (by : Option ℕ)
    (w : World) where
  module _ (a : User) (q : UserRole) (f : user_by_id user_id w.db.users ≡ some a)
      (g : user_by_id a.id w.db.users ≡ some a) (p : a.requested_role ≡ some q) where
    committed-decided :
        status_eq a.status UserStatus.pending_kyc ≡ false
        → (decide_kyc user_id approved r by w).1.committed
          ≡ add_role_change
              (role_change
                (env.uuid4 (w.draws + 2))
                a.id
                a.role
                (if approved then some q else none)
                (some q)
                r
                by
                (env.clock w.draws))
              (put_user (decided a approved q) (env.clock (w.draws + 1)) w.db)
    unfolding decide_kyc
    committed-decided n =
        ground
          (arith, f, p, n, save_found (decided a approved q) (record w { draws = w.draws + 1 }) a g)

    committed-released :
        a.status ≡ UserStatus.pending_kyc
        → (decide_kyc user_id approved r by w).1.committed
          ≡ add_role_change
              (role_change
                (env.uuid4 (w.draws + 3))
                a.id
                a.role
                (if approved then some q else none)
                (some q)
                r
                by
                (env.clock w.draws))
              (add_status_change
                (status_change
                  (env.uuid4 (w.draws + 2))
                  a.id
                  a.status
                  UserStatus.active
                  (decision_reason r approved)
                  by
                  (env.clock w.draws))
                (put_user (decided a approved q) (env.clock (w.draws + 1)) w.db))
    unfolding decide_kyc
    committed-released n =
        ground
          (arith, f, p, n, save_found (decided a approved q) (record w { draws = w.draws + 1 }) a g)

    decide_kyc-pending :
        {New : ℕ → Type 0} → Change New w.db (decide_kyc user_id approved r by w).1.committed
    decide_kyc-pending = elim (Bool-cases (status_eq a.status UserStatus.pending_kyc)) [
      | inl n ↦
          (let n' = (status_eq_iff a.status UserStatus.pending_kyc).0 n in
            subst (Change _ w.db) (sym (committed-released n'))
              (role_decided_released a q approved _ _ _ _ r _ by g p n'))
      | inr n ↦
          subst (Change _ w.db) (sym (committed-decided n))
            (role_decided a q approved _ _ _ r by g p (status_decided a approved q n))
    ]

  -- On a session with nothing to write, a KYC decision, whatever it replies, leaves committed
  -- tables that one step `Change` of the lifecycle makes of those before it (keeping them is a
  -- step).
  pub decide_kyc-Change :
      {New : ℕ → Type 0}
      → w.committed ≡ w.db
      → Change New w.db (decide_kyc user_id approved r by w).1.committed
  unfolding decide_kyc
  decide_kyc-Change clean = elim (Option-cases (user_by_id user_id w.db.users)) [
    | inl f ↦ rw (f, clean) keep
    | inr (a, f) ↦ elim (Option-cases a.requested_role) [
      | inl p ↦ rw (f, p, clean) keep
      | inr (q, p) ↦ decide_kyc-pending a q f (user_by_id_self user_id w.db.users f) p
    ]
  ]
