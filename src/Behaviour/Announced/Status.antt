-- ===== src/Behaviour/Announced/Status.antt =====
-- commands/change_status.py: its event.
use diddifree_id.Prelude.{
  ℕ, ◌+◌, ◌≡◌, refl, String, Option, true, some, ◌∷◌, arith, Option-cases, Bool-cases, inl, inr,
  if◌then◌else◌,
}
use diddifree_id.Domain.Access.{
  UserStatus, status_of_value, status_value, role_value, is_admin_settable, can_transition,
  status_eq,
}
use diddifree_id.Domain.Entities.{User}
use diddifree_id.Domain.Events.{DomainEvent, user_status_changed, event_base}
use diddifree_id.Platform.Redis.{profile_key, delete}
use diddifree_id.Platform.Environment.{Env}
use diddifree_id.Platform.Monad.{World}
use diddifree_id.Infra.Users.{user_by_id, put_user, add_status_change}
use diddifree_id.Infra.Users.Save.{save_found}
use diddifree_id.Infra.Tokens.{close_tokens_of}
use diddifree_id.Commands.ChangeStatus.{change_status}
use diddifree_id.Refinement.Settled.{is_ok}
use diddifree_id.Refinement.Lookup.{user_by_id_self}
use diddifree_id.Behaviour.Announced.{IsAnnounced, quiet, event_call, put-IsAnnounced}

module _ ⦃env : Env⦄ (user_id : ℕ) (status : String) (r : Option String) (by : Option ℕ)
    (w : World) where
  module _ (target : UserStatus) (a : User) (e : status_of_value status ≡ some target)
      (s : is_admin_settable target ≡ true) (f : user_by_id user_id w.db.users ≡ some a)
      (c : can_transition a.status target ≡ true) (g : user_by_id a.id w.db.users ≡ some a) where
    users_changed :
        (change_status user_id status r by w).1.committed.users
        ≡ (put_user (record a { status = target }) (env.clock (w.draws + 1)) w.db).users
    unfolding change_status add_status_change close_tokens_of
    users_changed = ground (
      arith,
      e,
      s,
      f,
      c,
      save_found (record a { status = target }) (record w { draws = w.draws + 1 }) a g,
    )

    abbrev event_at : ℕ → DomainEvent
    event_at t =
        user_status_changed
          (record { user_id = a.id; phone = a.phone; role = role_value a.role; at = t })
          (status_value a.status) (status_value target) r

    replied_changed : is_ok (change_status user_id status r by w).0 ≡ true
    unfolding change_status
    replied_changed = ground (
      arith,
      e,
      s,
      f,
      c,
      save_found (record a { status = target }) (record w { draws = w.draws + 1 }) a g,
    )

    announced_at : ℕ
    announced_at = if status_eq target UserStatus.suspended then w.draws + 4 else w.draws + 3

    redis_changed :
        (change_status user_id status r by w).1.redis
        ≡ event_call (event_at (env.clock announced_at)) ∷ delete (profile_key a.id) ∷ w.redis
    unfolding change_status announced_at
    redis_changed = ground (
      arith,
      e,
      s,
      f,
      c,
      save_found (record a { status = target }) (record w { draws = w.draws + 1 }) a g,
    )

    status-IsAnnounced : w.committed ≡ w.db → IsAnnounced w (change_status user_id status r by w)
    unfolding event_base
    status-IsAnnounced clean =
        put-IsAnnounced (record a { status = target }) a (env.clock (w.draws + 1))
          (event_at (env.clock announced_at)) w (change_status user_id status r by w) refl g clean
          replied_changed users_changed redis_changed
          (record { user_id = refl; phone = refl; role = refl }) (refl, refl)

  pub change_status-IsAnnounced :
      w.committed ≡ w.db → IsAnnounced w (change_status user_id status r by w)
  unfolding change_status
  change_status-IsAnnounced clean = elim (Option-cases (status_of_value status)) [
    | inl e ↦ quiet (ground (arith, e)) (ground (arith, e))
    | inr (target, e) ↦ elim (Bool-cases (is_admin_settable target)) [
      | inr s ↦ quiet (ground (arith, e, s)) (ground (arith, e, s))
      | inl s ↦ elim (Option-cases (user_by_id user_id w.db.users)) [
        | inl f ↦ quiet (ground (arith, e, s, f)) (ground (arith, e, s, f))
        | inr (a, f) ↦ elim (Bool-cases (can_transition a.status target)) [
          | inr c ↦ quiet (ground (arith, e, s, f, c)) (ground (arith, e, s, f, c))
          | inl c ↦ status-IsAnnounced target a e s f c (user_by_id_self user_id w.db.users f) clean
        ]
      ]
    ]
  ]
