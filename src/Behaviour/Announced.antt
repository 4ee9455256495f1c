-- ===== src/Behaviour/Announced.antt =====
-- The commands that change an account, beside what they send to Redis: the event of the change, on
-- the stream of identity_app/shared_kernel/events/bus.py, and the invalidation of the cache.
pub mod Status
pub mod Role
pub mod Kyc
pub mod Profile
pub mod Login
pub mod Commands
use diddifree_id.Prelude.{
  ℕ, ◌≡◌, ◌≢◌, true, sym, ◌∙◌, ap, subst, String, some, List, [], ◌∷◌, arith,
}
use diddifree_id.Domain.Access.{UserStatus, status_value, role_value}
use diddifree_id.Domain.Entities.{User}
use diddifree_id.Domain.Events.{
  DomainEvent, EventBase, user_registered, user_updated, user_role_changed, user_status_changed,
  event_base, event_name, to_payload,
}
use diddifree_id.Platform.Redis.{RedisCall, profile_key, delete, xadd}
use diddifree_id.Platform.Monad.{World, Result}
use diddifree_id.Infra.Users.{user_by_id, assign, put_user}
use diddifree_id.Infra.Bus.{stream_key, stream_max_len}
use diddifree_id.Refinement.Settled.{is_ok}
use diddifree_id.Invariants.Columns.{put_hit, put_miss}

-- What the class of an event says of the account before and after.
abbrev pub Describes : DomainEvent → User → User → Type 0
Describes (user_registered b) before after = before.status ≡ UserStatus.pending_verification
Describes (user_updated b changed) before after = before.role ≡ after.role
Describes (user_role_changed b old new) before after =
    (old ≡ role_value before.role) × (new ≡ role_value after.role)
Describes (user_status_changed b old new reason) before after =
    (old ≡ status_value before.status) × (new ≡ status_value after.status)

-- The fields that every event has.
pub record IsOfRow (b : EventBase) (row : User) : Type 0 where
  pub user_id : b.user_id ≡ row.id
  pub phone : b.phone ≡ row.phone
  pub role : b.role ≡ role_value row.role

abbrev pub event_call : DomainEvent → RedisCall
event_call e = xadd stream_key (event_name e) (to_payload e) stream_max_len

-- An action that changes no committed account and sends nothing, or drops a cached profile; or one
-- that changes one account, drops its cached profile, and publishes an event of what changed. Only
-- an action that returns sends anything.
pub data IsAnnounced {A : Type 0} (w : World) (x : Result A × World) : Type 0 where
  quiet : x.1.redis ≡ w.redis → x.1.committed.users ≡ w.committed.users → IsAnnounced w x
  refreshed :
      (i : ℕ)
      → is_ok x.0 ≡ true
      → x.1.redis ≡ delete (profile_key i) ∷ w.redis
      → x.1.committed.users ≡ w.committed.users
      → IsAnnounced w x
  announced :
      (e : DomainEvent) (before after : User)
      → is_ok x.0 ≡ true
      → user_by_id after.id w.committed.users ≡ some before
      → user_by_id after.id x.1.committed.users ≡ some after
      → ((i : ℕ) → after.id ≢ i → user_by_id i x.1.committed.users ≡ user_by_id i w.committed.users)
      → IsOfRow (event_base e) after
      → Describes e before after
      → x.1.redis ≡ event_call e ∷ delete (profile_key after.id) ∷ w.redis
      → IsAnnounced w x

module _ (u a : User) (t : ℕ) (e : DomainEvent) (w : World) {A : Type 0} (x : Result A × World)
    (same : u.id ≡ a.id) (found : user_by_id a.id w.db.users ≡ some a)
    (clean : w.committed ≡ w.db) where
  pub put-IsAnnounced :
      is_ok x.0 ≡ true
      → x.1.committed.users ≡ (put_user u t w.db).users
      → x.1.redis ≡ event_call e ∷ delete (profile_key a.id) ∷ w.redis
      → IsOfRow (event_base e) (assign u t a)
      → Describes e a (assign u t a)
      → IsAnnounced w x
  put-IsAnnounced done users redis base content =
      announced e a (assign u t a) done (ap (λ db. user_by_id a.id db.users) clean ∙ found)
        (ap (user_by_id a.id) users
          ∙ put_hit a.id t u a w.db (subst (λ i. user_by_id i w.db.users ≡ some a) (sym same) found)
              same)
        (λ i ne.
          ap (user_by_id i) users
          ∙ put_miss i t u w.db (λ q. ne (sym same ∙ q))
          ∙ ap (λ db. user_by_id i db.users) (sym clean))
        base content redis
