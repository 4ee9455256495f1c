-- ===== src/Lifecycle.antt =====
-- The life of an account, as an abstract specification: what one request may do to the committed
-- tables. Each constructor of `Change` is one outcome of the commands of
-- identity_app/modules/identity/application/commands, with what held before it.
pub mod Fresh
pub mod Keyed
use diddifree_id.Prelude.{
  ℕ, ◌+◌, ◌≤◌, ◌<◌, ◌≡◌, String, Bool, true, Option, none, some, find_first, if◌then◌else◌,
}
use diddifree_id.Domain.Access.{
  UserRole, UserStatus, is_session_allowed, can_transition, is_kyc_required,
}
use diddifree_id.Domain.Entities.{User, OtpCode, RefreshToken}
use diddifree_id.Platform.Database.{Db}
use diddifree_id.Platform.Environment.{Env}
use diddifree_id.Infra.Users.{
  user_by_id, user_by_phone, new_row, add_user, put_user, add_status_change, add_role_change,
}
use diddifree_id.Infra.Otps.{has_otp_id, add_code, add_attempt, consume_code}
use diddifree_id.Infra.Tokens.{add_token, close_token, close_tokens_of}
use diddifree_id.Lifecycle.Keyed.{IsOpenCode}
use diddifree_id.Commands.Rows.{status_change, role_change}
use diddifree_id.Commands.RegisterUser.{new_user}
use diddifree_id.Commands.VerifyOtp.{verified_status}
use diddifree_id.Commands.DecideKyc.{decided}

-- A new session of an account.
pub record IsSessionOf (a : User) (k : RefreshToken) : Type 0 where
  pub owner : k.user_id ≡ a.id
  pub open_session : k.revoked_at ≡ none

module _ ⦃env : Env⦄ where
  -- `New` says which ids a new account or code may have.
  pub data Change (New : ℕ → Type 0) (db : Db) : Db → Type 0 where
    keep : Change New db db
    registered :
        (id : ℕ) (phone : String) (name : Option String) (c t : ℕ)
        → New id
        → user_by_id id db.users ≡ none
        → user_by_phone phone db.users ≡ none
        → Change New db (add_user (new_row (new_user id phone name c) t) db)
    renamed :
        (a : User) (name : Option String) (t : ℕ)
        → user_by_id a.id db.users ≡ some a
        → Change New db (put_user (record a { full_name = name }) t db)
    code_issued :
        (o : OtpCode)
        → New o.id
        → find_first (has_otp_id o.id) db.otp_codes ≡ none
        → o.attempts ≡ 0
        → o.consumed_at ≡ none
        → Change New db (add_code o db)
    code_missed :
        (o : OtpCode)
        → IsOpenCode db o
        → o.attempts + 1 < env.settings.otp_max_attempts
        → Change New db (add_attempt o.id db)
    code_burnt :
        (o : OtpCode) (t : ℕ)
        → IsOpenCode db o
        → env.settings.otp_max_attempts ≤ o.attempts + 1
        → Change New db (consume_code o.id t (add_attempt o.id db))
    logged_in :
        (o : OtpCode) (a : User) (k : RefreshToken) (t : ℕ)
        → IsOpenCode db o
        → user_by_id a.id db.users ≡ some a
        → is_session_allowed a.status ≡ true
        → IsSessionOf a k
        → Change New db (add_token k (consume_code o.id t db))
    activated :
        (o : OtpCode) (a : User) (k : RefreshToken) (t s i at : ℕ) (r : Option String)
        → IsOpenCode db o
        → user_by_id a.id db.users ≡ some a
        → a.status ≡ UserStatus.pending_verification
        → IsSessionOf a k
        → Change New db (
            add_token k (
              add_status_change
                (status_change i a.id UserStatus.pending_verification (verified_status a) r none at)
                (put_user (record a { status = verified_status a }) s (consume_code o.id t db))))
    rotated :
        (stored k : RefreshToken) (a : User) (t : ℕ)
        → user_by_id a.id db.users ≡ some a
        → is_session_allowed a.status ≡ true
        → IsSessionOf a k
        → Change New db (add_token k (close_token stored.id t db))
    session_closed : (id t : ℕ) → Change New db (close_token id t db)
    sessions_closed : (user_id t : ℕ) → Change New db (close_tokens_of user_id t db)
    suspended :
        (a : User) (s i at t : ℕ) (r : Option String) (by : Option ℕ)
        → user_by_id a.id db.users ≡ some a
        → can_transition a.status UserStatus.suspended ≡ true
        → Change New db (
            close_tokens_of a.id t (
              add_status_change
                (status_change i a.id a.status UserStatus.suspended r by at)
                (put_user (record a { status = UserStatus.suspended }) s db)))
    reinstated :
        (a : User) (s i at : ℕ) (r : Option String) (by : Option ℕ)
        → user_by_id a.id db.users ≡ some a
        → can_transition a.status UserStatus.active ≡ true
        → Change New db (
            add_status_change
              (status_change i a.id a.status UserStatus.active r by at)
              (put_user (record a { status = UserStatus.active }) s db))
    role_requested :
        (a : User) (target : UserRole) (s i at : ℕ) (r : Option String) (by : Option ℕ)
        → user_by_id a.id db.users ≡ some a
        → is_kyc_required target ≡ true
        → Change New db (
            add_role_change
              (role_change i a.id a.role none (some target) r by at)
              (put_user (record a { requested_role = some target }) s db))
    role_granted :
        (a : User) (target : UserRole) (s i at : ℕ) (r : Option String) (by : Option ℕ)
        → user_by_id a.id db.users ≡ some a
        → is_kyc_required target ≡ Bool.false
        → Change New db (
            add_role_change
              (role_change i a.id a.role (some target) none r by at)
              (put_user (record a { role = target; requested_role = none }) s db))
    role_decided :
        (a : User) (q : UserRole) (approved : Bool) (s i at : ℕ) (r : Option String) (by : Option ℕ)
        → user_by_id a.id db.users ≡ some a
        → a.requested_role ≡ some q
        → (decided a approved q).status ≡ a.status
        → Change New db (
            add_role_change
              (role_change i a.id a.role (if approved then some q else none) (some q) r by at)
              (put_user (decided a approved q) s db))
    role_decided_released :
        (a : User) (q : UserRole) (approved : Bool) (s i j at : ℕ) (r d : Option String)
        (by : Option ℕ)
        → user_by_id a.id db.users ≡ some a
        → a.requested_role ≡ some q
        → a.status ≡ UserStatus.pending_kyc
        → Change New db (
            add_role_change
              (role_change i a.id a.role (if approved then some q else none) (some q) r by at)
              (add_status_change
                (status_change j a.id a.status UserStatus.active d by at)
                (put_user (decided a approved q) s db)))
