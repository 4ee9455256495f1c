-- ===== src/Behaviour/Announced/Role.antt =====
-- commands/change_role.py: its events.
use diddifree_id.Prelude.{
  ℕ, ◌+◌, ◌≡◌, refl, String, Option, true, false, none, some, [], ◌∷◌, arith, Option-cases,
  Bool-cases, inl, inr,
}
use diddifree_id.Domain.Access.{UserRole, role_of_value, role_eq, requested_eq, role_value}
use diddifree_id.Domain.Entities.{User, needs_kyc_for}
use diddifree_id.Domain.Events.{user_updated, user_role_changed, event_base}
use diddifree_id.Platform.Environment.{Env}
use diddifree_id.Platform.Monad.{World}
use diddifree_id.Infra.Users.{user_by_id, add_role_change}
use diddifree_id.Infra.Users.Save.{save_found}
use diddifree_id.Commands.ChangeRole.{change_role}
use diddifree_id.Refinement.Lookup.{user_by_id_self}
use diddifree_id.Behaviour.Announced.{IsAnnounced, quiet, put-IsAnnounced}

module _ ⦃env : Env⦄ (user_id : ℕ) (role : String) (r : Option String) (by : Option ℕ) (w : World)
    (clean : w.committed ≡ w.db) where
  module _ (target : UserRole) (a : User) (e : role_of_value role ≡ some target)
      (f : user_by_id user_id w.db.users ≡ some a) (g : user_by_id a.id w.db.users ≡ some a) where
    request-IsAnnounced :
        needs_kyc_for a target ≡ true
        → requested_eq a.requested_role target ≡ false
        → IsAnnounced w (change_role user_id role r by w)
    unfolding change_role add_role_change event_base
    request-IsAnnounced n q =
        let u : User = record a { requested_role = some target } in
        let saved = save_found u (record w { draws = w.draws + 1 }) a g in
        put-IsAnnounced u a (env.clock (w.draws + 1))
          (user_updated
            (record {
              user_id = a.id;
              phone = a.phone;
              role = role_value a.role;
              at = env.clock (w.draws + 3);
            })
            ("requested_role" ∷ []))
          w (change_role user_id role r by w) refl g clean (ground (arith, e, f, n, q, saved))
          (ground (arith, e, f, n, q, saved)) (ground (arith, e, f, n, q, saved))
          (record { user_id = refl; phone = refl; role = refl }) refl

    grant-IsAnnounced :
        needs_kyc_for a target ≡ false
        → role_eq a.role target ≡ false
        → IsAnnounced w (change_role user_id role r by w)
    unfolding change_role add_role_change event_base
    grant-IsAnnounced n q =
        let u : User = record a { role = target; requested_role = none } in
        let saved = save_found u (record w { draws = w.draws + 1 }) a g in
        put-IsAnnounced u a (env.clock (w.draws + 1))
          (user_role_changed
            (record {
              user_id = a.id;
              phone = a.phone;
              role = role_value target;
              at = env.clock (w.draws + 3);
            })
            (role_value a.role) (role_value target))
          w (change_role user_id role r by w) refl g clean (ground (arith, e, f, n, q, saved))
          (ground (arith, e, f, n, q, saved)) (ground (arith, e, f, n, q, saved))
          (record { user_id = refl; phone = refl; role = refl }) (refl, refl)

  pub change_role-IsAnnounced : IsAnnounced w (change_role user_id role r by w)
  unfolding change_role
  change_role-IsAnnounced = elim (Option-cases (role_of_value role)) [
    | inl e ↦ quiet (ground (arith, e)) (ground (arith, e))
    | inr (target, e) ↦ elim (Option-cases (user_by_id user_id w.db.users)) [
      | inl f ↦ quiet (ground (arith, e, f)) (ground (arith, e, f))
      | inr (a, f) ↦
          let g = user_by_id_self user_id w.db.users f in
          elim (Bool-cases (needs_kyc_for a target)) [
            | inl n ↦ elim (Bool-cases (requested_eq a.requested_role target)) [
              | inl q ↦ quiet (ground (arith, e, f, n, q)) (ground (arith, e, f, n, q))
              | inr q ↦ request-IsAnnounced target a e f g n q
            ]
            | inr n ↦ elim (Bool-cases (role_eq a.role target)) [
              | inl q ↦ quiet (ground (arith, e, f, n, q)) (ground (arith, e, f, n, q))
              | inr q ↦ grant-IsAnnounced target a e f g n q
            ]
          ]
    ]
  ]
