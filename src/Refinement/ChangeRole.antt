-- ===== src/Refinement/ChangeRole.antt =====
-- commands/change_role.py beside the lifecycle.
use diddifree_id.Prelude.{
  ℕ, ◌+◌, ◌≡◌, sym, subst, String, Option, true, false, none, some, arith, Option-cases, Bool-cases,
  inl, inr,
}
use diddifree_id.Domain.Access.{UserRole, role_of_value, role_eq, requested_eq, is_kyc_required}
use diddifree_id.Domain.Entities.{User, needs_kyc_for}
use diddifree_id.Platform.Environment.{Env}
use diddifree_id.Platform.Monad.{World}
use diddifree_id.Infra.Users.{user_by_id, put_user, add_role_change}
use diddifree_id.Infra.Users.Save.{save_found}
use diddifree_id.Commands.Rows.{role_change}
use diddifree_id.Commands.ChangeRole.{change_role}
use diddifree_id.Lifecycle.{Change, keep, role_requested, role_granted}
use diddifree_id.Refinement.Lookup.{user_by_id_self}

needs_kyc_required : (a : User) (q : UserRole) → needs_kyc_for a q ≡ true → is_kyc_required q ≡ true
unfolding needs_kyc_for
needs_kyc_required a q h = ground arith

grants_not_required :
    (a : User) (q : UserRole)
    → needs_kyc_for a q ≡ false
    → role_eq a.role q ≡ false
    → is_kyc_required q ≡ false
unfolding needs_kyc_for
grants_not_required a q h e = ground arith

module _ ⦃env : Env⦄ (user_id : ℕ) (role : String) (r : Option String) (by : Option ℕ)
    (w : World) where
  module _ (target : UserRole) (a : User) (e : role_of_value role ≡ some target)
      (f : user_by_id user_id w.db.users ≡ some a) (g : user_by_id a.id w.db.users ≡ some a) where
    pub committed-request :
        needs_kyc_for a target ≡ true
        → requested_eq a.requested_role target ≡ false
        → (change_role user_id role r by w).1.committed
          ≡ add_role_change
              (role_change
                (env.uuid4 (w.draws + 2))
                a.id
                a.role
                none
                (some target)
                r
                by
                (env.clock w.draws))
              (put_user (record a { requested_role = some target }) (env.clock (w.draws + 1)) w.db)
    unfolding change_role
    committed-request n q = ground (
      arith,
      e,
      f,
      n,
      q,
      save_found (record a { requested_role = some target }) (record w { draws = w.draws + 1 }) a g,
    )

    committed-grant :
        needs_kyc_for a target ≡ false
        → role_eq a.role target ≡ false
        → (change_role user_id role r by w).1.committed
          ≡ add_role_change
              (role_change
                (env.uuid4 (w.draws + 2))
                a.id
                a.role
                (some target)
                none
                r
                by
                (env.clock w.draws))
              (put_user
                (record a { role = target; requested_role = none })
                (env.clock (w.draws + 1))
                w.db)
    unfolding change_role
    committed-grant n q = ground (
      arith,
      e,
      f,
      n,
      q,
      save_found (record a { role = target; requested_role = none })
          (record w { draws = w.draws + 1 }) a g,
    )

    change_role-found :
        {New : ℕ → Type 0}
        → w.committed ≡ w.db
        → Change New w.db (change_role user_id role r by w).1.committed
    unfolding change_role
    change_role-found clean = elim (Bool-cases (needs_kyc_for a target)) [
      | inl n ↦ elim (Bool-cases (requested_eq a.requested_role target)) [
        | inl q ↦ rw (e, f, n, q, clean) keep
        | inr q ↦
            subst (Change _ w.db) (sym (committed-request n q))
              (role_requested a target _ _ _ r by g (needs_kyc_required a target n))
      ]
      | inr n ↦ elim (Bool-cases (role_eq a.role target)) [
        | inl q ↦ rw (e, f, n, q, clean) keep
        | inr q ↦
            subst (Change _ w.db) (sym (committed-grant n q))
              (role_granted a target _ _ _ r by g (grants_not_required a target n q))
      ]
    ]

  -- On a session with nothing to write, a change of role, whatever it replies, leaves committed
  -- tables that one step `Change` of the lifecycle makes of those before it (keeping them is a
  -- step).
  pub change_role-Change :
      {New : ℕ → Type 0}
      → w.committed ≡ w.db
      → Change New w.db (change_role user_id role r by w).1.committed
  unfolding change_role
  change_role-Change clean = elim (Option-cases (role_of_value role)) [
    | inl e ↦ rw (e, clean) keep
    | inr (target, e) ↦ elim (Option-cases (user_by_id user_id w.db.users)) [
      | inl f ↦ rw (e, f, clean) keep
      | inr (a, f) ↦ change_role-found target a e f (user_by_id_self user_id w.db.users f) clean
    ]
  ]
