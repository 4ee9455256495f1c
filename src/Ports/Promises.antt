-- ===== src/Ports/Promises.antt =====
-- What domain/interfaces.py says of the ports, in terms of their own operations.
use diddifree_id.Prelude.{
  ℕ, ◌+◌, ◌≤◌, ◌<◌, String, true, All, Option, none, some, List, [], ◌∷◌, ◌++◌, ◌≡◌, str_eq,
  is_some,
}
use diddifree_id.Prelude.Lists.{length}
use diddifree_id.Domain.Entities.{User, OtpCode, RefreshToken, UserStatusChange, UserRoleChange}
use diddifree_id.Domain.Events.{DomainEvent}
use diddifree_id.Platform.Monad.{World, ok}
use diddifree_id.Infra.Reads.{Filters, max_page_size}
use diddifree_id.Ports.{
  UserWriteRepository, UserReadRepository, OtpRepository, RefreshTokenRepository, ProfileCache,
  EventPublisher, OtpSender,
}

-- The tables, and what other sessions see of them, stay as they are.
pub record KeepsTables (w w' : World) : Type 0 where
  pub db : w'.db ≡ w.db
  pub committed : w'.committed ≡ w.committed

-- The columns that a command may change are those of the entity.
pub record IsWritten (u row : User) : Type 0 where
  pub id : row.id ≡ u.id
  pub role : row.role ≡ u.role
  pub status : row.status ≡ u.status
  pub full_name : row.full_name ≡ u.full_name
  pub password_hash : row.password_hash ≡ u.password_hash
  pub requested_role : row.requested_role ≡ u.requested_role

-- "Always reads fresh": what was saved is found, before any commit. The rows of the audit trail
-- belong to the open transaction, and stay in it until `commit`.
pub record IsUserWriteRepository (r : UserWriteRepository) : Type 0 where
  pub find_by_id-save :
      (u : User) (w : World) {u' : User} {w' : World}
      → r.save u w ≡ (ok u', w')
      → (row : User) × (r.find_by_id u.id w' ≡ (ok (some row), w')) × IsWritten u row
  pub committed-save : (u : User) (w : World) → (r.save u w).1.committed ≡ w.committed
  pub status_recorded :
      (c : UserStatusChange) (w : World)
      → (w' : World) × (r.record_status_change c w ≡ (ok tt, w'))
        × (w'.db ≡ record w.db { user_status_history = w.db.user_status_history ++ c ∷ [] })
        × (w'.committed ≡ w.committed)
  pub role_recorded :
      (c : UserRoleChange) (w : World)
      → (w' : World) × (r.record_role_change c w ≡ (ok tt, w'))
        × (w'.db ≡ record w.db { user_role_history = w.db.user_role_history ++ c ∷ [] })
        × (w'.committed ≡ w.committed)
  pub commit_visible : (w : World) → r.commit w ≡ (ok tt, record w { committed = w.db })

-- "No writes": a read leaves everything as it was, and a page is bounded by the count.
pub record IsUserReadRepository (r : UserReadRepository) : Type 0 where
  pub get_by_id_reads : (i : ℕ) (w : World) → (r.get_by_id i w).1 ≡ w
  pub get_by_phone_reads : (p : String) (w : World) → (r.get_by_phone p w).1 ≡ w
  pub list_users_reads :
      (f : Filters) (page page_size : ℕ) (w : World)
      → (found : List User × ℕ) × (r.list_users f page page_size w ≡ (ok found, w))
        × (length found.0 ≤ max_page_size)
        × (length found.0 ≤ found.1)

-- A code of the number that was created at `t` is not after the one that was found.
abbrev pub IsNotAfter : ℕ → Option OtpCode → Type 0
IsNotAfter t none = ⊥
IsNotAfter t (some o) = t ≤ o.created_at

pub record IsOtpRepository (r : OtpRepository) : Type 0 where
  -- the newest code for the number that is not consumed; a search changes nothing
  pub found_active :
      (phone : String) (w : World)
      → (found : Option OtpCode) × (r.find_latest_active phone w ≡ (ok found, w))
        × ((o : OtpCode) → found ≡ some o → (str_eq o.phone phone ≡ true) × (o.consumed_at ≡ none))
        × All
            (λ p.
              str_eq p.phone phone ≡ true → p.consumed_at ≡ none → IsNotAfter p.created_at found)
            w.db.otp_codes
  -- the counter of a code that is there is incremented and returned
  pub register_attempt_again :
      (i n : ℕ) (w : World) {w' : World}
      → r.register_attempt i w ≡ (ok n, w')
      → 0 < n
      → (r.register_attempt i w').0 ≡ ok (n + 1)
  -- "a second call on a consumed OTP is a no-op"
  pub mark_consumed_again :
      (i : ℕ) (w : World)
      → (w' : World) × (r.mark_consumed i w ≡ (ok tt, w')) × (r.mark_consumed i w' ≡ (ok tt, w'))
  pub commit_visible : (w : World) → r.commit w ≡ (ok tt, record w { committed = w.db })

-- The token of a hash, once it is found, is found revoked.
pub record IsRevoked (r : RefreshTokenRepository) (token_hash : String) (w : World) : Type 0 where
  pub revoked :
      (t : RefreshToken)
      → (r.find_by_hash token_hash w).0 ≡ ok (some t)
      → is_some t.revoked_at ≡ true

pub record IsRefreshTokenRepository (r : RefreshTokenRepository) : Type 0 where
  pub find_by_hash_reads :
      (h : String) (w : World)
      → (found : Option RefreshToken) × (r.find_by_hash h w ≡ (ok found, w))
  pub revoke_revokes :
      (h : String) (t : RefreshToken) (w : World)
      → (r.find_by_hash h w).0 ≡ ok (some t)
      → (w' : World) × (r.revoke t.id w ≡ (ok tt, w')) × IsRevoked r h w'
  pub revoke_all_revokes :
      (h : String) (t : RefreshToken) (w : World)
      → (r.find_by_hash h w).0 ≡ ok (some t)
      → (n : ℕ) × (w' : World) × (r.revoke_all_for_user t.user_id w ≡ (ok n, w')) × IsRevoked r h w'
  -- every live token is revoked: none is left to a second call
  pub revoke_all_again :
      (i : ℕ) (w : World) → (r.revoke_all_for_user i (r.revoke_all_for_user i w).1).0 ≡ ok 0
  -- a commit changes what others see, not what is found here
  pub find_by_hash-commit :
      (h : String) (w : World)
      → (r.find_by_hash h (record w { committed = w.db })).0 ≡ (r.find_by_hash h w).0
  pub commit_visible : (w : World) → r.commit w ≡ (ok tt, record w { committed = w.db })

pub record IsProfileCache (c : ProfileCache) : Type 0 where
  pub get_user_keeps : (i : ℕ) (w : World) → KeepsTables w (c.get_user i w).1
  pub set_user_keeps :
      (u : User) (w : World) → ((c.set_user u w).0 ≡ ok tt) × KeepsTables w (c.set_user u w).1
  pub invalidate_user_keeps :
      (i : ℕ) (w : World)
      → ((c.invalidate_user i w).0 ≡ ok tt) × KeepsTables w (c.invalidate_user i w).1

-- A failure of the bus never undoes a write.
pub record IsEventPublisher (p : EventPublisher) : Type 0 where
  pub publish_keeps :
      (e : DomainEvent) (w : World) → ((p.publish e w).0 ≡ ok tt) × KeepsTables w (p.publish e w).1

-- The code in clear reaches no table, and no key of Redis.
pub record IsOtpSender (s : OtpSender) : Type 0 where
  pub send_keeps :
      (phone code : String) (w : World)
      → ((s.send phone code w).0 ≡ ok tt)
        × KeepsTables w (s.send phone code w).1
        × ((s.send phone code w).1.redis ≡ w.redis)
