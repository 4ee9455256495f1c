-- ===== src/Refinement/ChangeStatus.antt =====
-- commands/change_status.py beside the lifecycle.
use diddifree_id.Prelude.{
  ℕ, ◌+◌, ◌≡◌, sym, subst, String, Option, true, some, arith, Option-cases, Bool-cases, inl, inr,
}
use diddifree_id.Domain.Access.{UserStatus, status_of_value, is_admin_settable, can_transition}
use diddifree_id.Domain.Entities.{User}
use diddifree_id.Platform.Environment.{Env}
use diddifree_id.Platform.Monad.{World}
use diddifree_id.Infra.Users.{user_by_id, put_user, add_status_change}
use diddifree_id.Infra.Users.Save.{save_found}
use diddifree_id.Infra.Tokens.{close_tokens_of}
use diddifree_id.Commands.Rows.{status_change}
use diddifree_id.Commands.ChangeStatus.{change_status}
use diddifree_id.Lifecycle.{Change, keep, suspended, reinstated}
use diddifree_id.Refinement.Lookup.{user_by_id_self}

module _ ⦃env : Env⦄ (user_id : ℕ) (status : String) (r : Option String) (by : Option ℕ)
    (w : World) where
  module _ (a : User) (f : user_by_id user_id w.db.users ≡ some a)
      (g : user_by_id a.id w.db.users ≡ some a) where
    committed-suspend :
        status_of_value status ≡ some UserStatus.suspended
        → can_transition a.status UserStatus.suspended ≡ true
        → (change_status user_id status r by w).1.committed
          ≡ close_tokens_of a.id (env.clock (w.draws + 3)) (
              add_status_change
                (status_change
                  (env.uuid4 (w.draws + 2))
                  a.id
                  a.status
                  UserStatus.suspended
                  r
                  by
                  (env.clock w.draws))
                (put_user
                  (record a { status = UserStatus.suspended })
                  (env.clock (w.draws + 1))
                  w.db))
    unfolding change_status is_admin_settable
    committed-suspend e c = ground (
      arith,
      e,
      f,
      c,
      save_found (record a { status = UserStatus.suspended }) (record w { draws = w.draws + 1 }) a
          g,
    )

    committed-reinstate :
        status_of_value status ≡ some UserStatus.active
        → can_transition a.status UserStatus.active ≡ true
        → (change_status user_id status r by w).1.committed
          ≡ add_status_change
              (status_change
                (env.uuid4 (w.draws + 2))
                a.id
                a.status
                UserStatus.active
                r
                by
                (env.clock w.draws))
              (put_user (record a { status = UserStatus.active }) (env.clock (w.draws + 1)) w.db)
    unfolding change_status is_admin_settable
    committed-reinstate e c = ground (
      arith,
      e,
      f,
      c,
      save_found (record a { status = UserStatus.active }) (record w { draws = w.draws + 1 }) a g,
    )

    change_status-allowed :
        {New : ℕ → Type 0}
        → (target : UserStatus) → status_of_value status ≡ some target
        → is_admin_settable target ≡ true
        → can_transition a.status target ≡ true
        → Change New w.db (change_status user_id status r by w).1.committed
    unfolding is_admin_settable
    change_status-allowed UserStatus.suspended e s c =
        subst (Change _ w.db) (sym (committed-suspend e c)) (suspended a _ _ _ _ r by g c)
    change_status-allowed UserStatus.active e s c =
        subst (Change _ w.db) (sym (committed-reinstate e c)) (reinstated a _ _ _ r by g c)
    change_status-allowed _ e s c = cc

  -- On a session with nothing to write, a change of status, whatever it replies, leaves committed
  -- tables that one step `Change` of the lifecycle makes of those before it (keeping them is a
  -- step).
  pub change_status-Change :
      {New : ℕ → Type 0}
      → w.committed ≡ w.db
      → Change New w.db (change_status user_id status r by w).1.committed
  unfolding change_status
  change_status-Change clean = elim (Option-cases (status_of_value status)) [
    | inl e ↦ rw (e, clean) keep
    | inr (target, e) ↦ elim (Bool-cases (is_admin_settable target)) [
      | inr s ↦ rw (e, s, clean) keep
      | inl s ↦ elim (Option-cases (user_by_id user_id w.db.users)) [
        | inl f ↦ rw (e, s, f, clean) keep
        | inr (a, f) ↦ elim (Bool-cases (can_transition a.status target)) [
          | inr c ↦ rw (e, s, f, c, clean) keep
          | inl c ↦ change_status-allowed a f (user_by_id_self user_id w.db.users f) target e s c
        ]
      ]
    ]
  ]
