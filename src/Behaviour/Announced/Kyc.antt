-- ===== src/Behaviour/Announced/Kyc.antt =====
-- commands/decide_kyc.py: its events.
use diddifree_id.Prelude.{
  ℕ, ◌+◌, ◌≡◌, refl, String, Bool, Option, true, false, some, [], ◌∷◌, arith, Option-cases, inl,
  inr, if◌then◌else◌,
}
use diddifree_id.Domain.Access.{UserRole, UserStatus, role_value, status_eq}
use diddifree_id.Domain.Entities.{User}
use diddifree_id.Domain.Events.{DomainEvent, user_updated, user_role_changed, event_base}
use diddifree_id.Platform.Redis.{profile_key, delete}
use diddifree_id.Platform.Environment.{Env}
use diddifree_id.Platform.Monad.{World}
use diddifree_id.Infra.Users.{user_by_id, put_user, add_role_change, add_status_change}
use diddifree_id.Infra.Users.Save.{save_found}
use diddifree_id.Commands.DecideKyc.{decide_kyc, decided}
use diddifree_id.Refinement.Settled.{is_ok}
use diddifree_id.Refinement.Lookup.{user_by_id_self}
use diddifree_id.Behaviour.Announced.{IsAnnounced, quiet, event_call, put-IsAnnounced}

module _ ⦃env : Env⦄ (user_id : ℕ) (r : Option String) (by : Option ℕ) (w : World) where
  module _ (a : User) (q : UserRole) (f : user_by_id user_id w.db.users ≡ some a)
      (g : user_by_id a.id w.db.users ≡ some a) (p : a.requested_role ≡ some q) where
    users_decided :
        (approved : Bool)
        → (decide_kyc user_id approved r by w).1.committed.users
          ≡ (put_user (decided a approved q) (env.clock (w.draws + 1)) w.db).users
    unfolding decide_kyc add_role_change add_status_change
    users_decided approved =
        ground
          (arith, f, p, save_found (decided a approved q) (record w { draws = w.draws + 1 }) a g)

    replied_decided : (approved : Bool) → is_ok (decide_kyc user_id approved r by w).0 ≡ true
    unfolding decide_kyc
    replied_decided approved =
        ground
          (arith, f, p, save_found (decided a approved q) (record w { draws = w.draws + 1 }) a g)

    -- One more id is drawn if the status moves.
    decided_at : ℕ
    decided_at =
        env.clock (if status_eq a.status UserStatus.pending_kyc then w.draws + 4 else w.draws + 3)

    abbrev decision_event : Bool → DomainEvent
    decision_event true =
        user_role_changed
          (record { user_id = a.id; phone = a.phone; role = role_value q; at = decided_at })
          (role_value a.role) (role_value q)
    decision_event false =
        user_updated
          (record { user_id = a.id; phone = a.phone; role = role_value a.role; at = decided_at })
          ("requested_role" ∷ [])

    redis_decided :
        (approved : Bool)
        → (decide_kyc user_id approved r by w).1.redis
          ≡ event_call (decision_event approved) ∷ delete (profile_key a.id) ∷ w.redis
    unfolding decide_kyc decided_at
    redis_decided true =
        ground (arith, f, p, save_found (decided a true q) (record w { draws = w.draws + 1 }) a g)
    redis_decided false =
        ground (arith, f, p, save_found (decided a false q) (record w { draws = w.draws + 1 }) a g)

    decision-IsAnnounced :
        (approved : Bool) → w.committed ≡ w.db → IsAnnounced w (decide_kyc user_id approved r by w)
    unfolding event_base
    decision-IsAnnounced true clean =
        put-IsAnnounced (decided a true q) a (env.clock (w.draws + 1)) (decision_event true) w
          (decide_kyc user_id true r by w) refl g clean (replied_decided true) (users_decided true)
          (redis_decided true) (record { user_id = refl; phone = refl; role = refl }) (refl, refl)
    decision-IsAnnounced false clean =
        put-IsAnnounced (decided a false q) a (env.clock (w.draws + 1)) (decision_event false) w
          (decide_kyc user_id false r by w) refl g clean (replied_decided false)
          (users_decided false) (redis_decided false)
          (record { user_id = refl; phone = refl; role = refl }) refl

  pub decide_kyc-IsAnnounced :
      (approved : Bool) → w.committed ≡ w.db → IsAnnounced w (decide_kyc user_id approved r by w)
  unfolding decide_kyc
  decide_kyc-IsAnnounced approved clean = elim (Option-cases (user_by_id user_id w.db.users)) [
    | inl f ↦ quiet (ground (arith, f)) (ground (arith, f))
    | inr (a, f) ↦ elim (Option-cases a.requested_role) [
      | inl p ↦ quiet (ground (arith, f, p)) (ground (arith, f, p))
      | inr (q, p) ↦
          decision-IsAnnounced a q f (user_by_id_self user_id w.db.users f) p approved clean
    ]
  ]
