-- ===== src/Behaviour/Announced/Profile.antt =====
-- commands/update_profile.py: its event.
use diddifree_id.Prelude.{
  ℕ, ◌+◌, ◌≡◌, refl, String, Option, true, some, [], ◌∷◌, arith, Option-cases, Bool-cases, inl, inr,
}
use diddifree_id.Domain.Access.{role_value}
use diddifree_id.Domain.Entities.{User}
use diddifree_id.Domain.Events.{user_updated, event_base}
use diddifree_id.Platform.Environment.{Env}
use diddifree_id.Platform.Monad.{World}
use diddifree_id.Infra.Users.{user_by_id}
use diddifree_id.Infra.Users.Save.{save_found}
use diddifree_id.Commands.UpdateProfile.{update_profile, is_new_name}
use diddifree_id.Refinement.Lookup.{user_by_id_self}
use diddifree_id.Behaviour.Announced.{IsAnnounced, quiet, put-IsAnnounced}

module _ ⦃env : Env⦄ (user_id : ℕ) (name : Option String) (w : World)
    (clean : w.committed ≡ w.db) where
  rename-IsAnnounced :
      (a : User)
      → user_by_id user_id w.db.users ≡ some a
      → user_by_id a.id w.db.users ≡ some a
      → is_new_name name a.full_name ≡ true
      → IsAnnounced w (update_profile user_id name w)
  unfolding update_profile event_base
  rename-IsAnnounced a f g n =
      let u : User = record a { full_name = name } in
      let saved = save_found u w a g in
      put-IsAnnounced u a (env.clock w.draws)
        (user_updated
          (record {
            user_id = a.id;
            phone = a.phone;
            role = role_value a.role;
            at = env.clock (w.draws + 1);
          })
          ("full_name" ∷ []))
        w (update_profile user_id name w) refl g clean (ground (arith, f, n, saved))
        (ground (arith, f, n, saved)) (ground (arith, f, n, saved))
        (record { user_id = refl; phone = refl; role = refl }) refl

  pub update_profile-IsAnnounced : IsAnnounced w (update_profile user_id name w)
  unfolding update_profile
  update_profile-IsAnnounced = elim (Option-cases (user_by_id user_id w.db.users)) [
    | inl f ↦ quiet (ground (arith, f)) (ground (arith, f))
    | inr (a, f) ↦ elim (Bool-cases (is_new_name name a.full_name)) [
      | inr n ↦ quiet (ground (arith, f, n)) (ground (arith, f, n))
      | inl n ↦ rename-IsAnnounced a f (user_by_id_self user_id w.db.users f) n
    ]
  ]
