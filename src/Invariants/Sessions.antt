-- ===== src/Invariants/Sessions.antt =====
-- Sessions: a refresh token that is not revoked belongs to an account that may hold a session.
use diddifree_id.Prelude.{
  ℕ, ◌≡◌, ◌⊎◌, refl, sym, Bool, true, false, ◌||◌, Option, none, some, List, arith, is_some, All,
  All-map, All-append_one, All-update_where, update_where, ◌==◌, Bool-cases, inl, inr,
}
use diddifree_id.Domain.Access.{UserRole, UserStatus, is_session_allowed}
use diddifree_id.Domain.Entities.{User, RefreshToken}
use diddifree_id.Platform.Database.{Db}
use diddifree_id.Platform.Environment.{Env}
use diddifree_id.Infra.Users.{user_by_id, add_user, put_user, add_status_change, add_role_change}
use diddifree_id.Infra.Otps.{add_code, add_attempt, consume_code}
use diddifree_id.Infra.Tokens.{
  add_token, close_token, close_tokens_of, is_open_token_of, set_revoked,
}
use diddifree_id.Commands.DecideKyc.{decided}
use diddifree_id.Commands.VerifyOtp.{verified_status}
use diddifree_id.Lifecycle.{
  Change, keep, registered, renamed, code_issued, code_missed, code_burnt, logged_in, activated,
  rotated, session_closed, sessions_closed, suspended, reinstated, role_requested, role_granted,
  role_decided, role_decided_released, IsSessionOf,
}
use diddifree_id.Invariants.Columns.{
  column_at, column_at-put_user, column_at-add_user, column_at-found, column_at-absent,
}

abbrev pub status : User → UserStatus
status u = u.status

abbrev pub may_hold_session : Option UserStatus → Bool
may_hold_session none = false
may_hold_session (some s) = is_session_allowed s

abbrev pub session_ok : List User → RefreshToken → Bool
session_ok us k = is_some k.revoked_at || may_hold_session (column_at status k.user_id us)

abbrev pub AreSessionsAllowed : Db → Type 0
AreSessionsAllowed db = All (λ k. session_ok db.users k ≡ true) db.refresh_tokens

-- Accounts may change as long as those that may hold a session still may.
keep_users :
    (us vs : List User) (ks : List RefreshToken)
    → ((i : ℕ)
        → may_hold_session (column_at status i us) ≡ true
        → may_hold_session (column_at status i vs) ≡ true)
    → All (λ k. session_ok us k ≡ true) ks
    → All (λ k. session_ok vs k ≡ true) ks
keep_users us vs ks grow =
    All-map (λ k. session_ok us k ≡ true) (λ k. session_ok vs k ≡ true) ks
      (λ k h. ground (arith, h, grow k.user_id))

add_user_may_hold :
    (u : User) (db : Db) (i : ℕ)
    → user_by_id u.id db.users ≡ none
    → may_hold_session (column_at status i db.users) ≡ true
    → may_hold_session (column_at status i (add_user u db).users) ≡ true
add_user_may_hold u db i new h = elim (Bool-cases (u.id == i)) [
  | inl e ↦ absurd (ground (arith, column_at-absent status u.id i db.users new (ground arith), h))
  | inr e ↦ ground (arith, column_at-add_user status i db u new, h, e)
]

add_user_sessions :
    (u : User) (db : Db)
    → user_by_id u.id db.users ≡ none
    → AreSessionsAllowed db
    → AreSessionsAllowed (add_user u db)
add_user_sessions u db new h =
    unfold add_user in
    keep_users db.users (add_user u db).users db.refresh_tokens
      (λ i m. add_user_may_hold u db i new m) h

module _ (u a : User) (t : ℕ) (db : Db) (found : user_by_id u.id db.users ≡ some a) where
  put_user_may_hold :
      (i : ℕ)
      → (u.status ≡ a.status) ⊎ (is_session_allowed u.status ≡ true)
      → may_hold_session (column_at status i db.users) ≡ true
      → may_hold_session (column_at status i (put_user u t db).users) ≡ true
  put_user_may_hold i ok h = elim (Bool-cases (u.id == i)) [
    | inl e ↦ ground (
      arith,
      column_at-put_user status i db u t a refl found,
      column_at-found status u.id i db.users found (ground arith),
      ok,
      h,
      e,
    )
    | inr e ↦ ground (arith, column_at-put_user status i db u t a refl found, h, e)
  ]

  put_user_sessions :
      (u.status ≡ a.status) ⊎ (is_session_allowed u.status ≡ true)
      → AreSessionsAllowed db
      → AreSessionsAllowed (put_user u t db)
  put_user_sessions ok h =
      unfold put_user in
      keep_users db.users (put_user u t db).users db.refresh_tokens
        (λ i m. put_user_may_hold i ok m) h

  -- A suspension: the sessions of the account are closed, the others are not touched.
  suspend_session :
      (k : RefreshToken)
      → is_open_token_of u.id k ≡ false
      → session_ok db.users k ≡ true
      → session_ok (put_user u t db).users k ≡ true
  suspend_session k miss h =
      ground (arith, column_at-put_user status k.user_id db u t a refl found, h, miss)

-- `UPDATE`s of sessions only close them.
close_sessions :
    (p : RefreshToken → Bool) (t : ℕ) (us : List User) (ks : List RefreshToken)
    → All (λ k. session_ok us k ≡ true) ks
    → All (λ k. session_ok us k ≡ true) (update_where p (set_revoked t) ks)
close_sessions p t us ks =
    All-update_where (λ k. session_ok us k ≡ true) (λ k. session_ok us k ≡ true) p (set_revoked t)
      ks (λ k hit h. refl) (λ k miss h. h)

-- The session that a login or a rotation opens.
open_session :
    (a : User) (k : RefreshToken) (us : List User)
    → user_by_id a.id us ≡ some a
    → is_session_allowed a.status ≡ true
    → IsSessionOf a k
    → session_ok us k ≡ true
open_session a k us found ok s =
    ground (arith, column_at-found status a.id k.user_id us found (sym s.owner), ok)

verified_allowed : (a : User) → is_session_allowed (verified_status a) ≡ true
unfolding is_session_allowed
verified_allowed a = ground arith

released_allowed :
    (a : User) (b : Bool) (q : UserRole)
    → a.status ≡ UserStatus.pending_kyc
    → is_session_allowed (decided a b q).status ≡ true
unfolding is_session_allowed
released_allowed a b q e = ground arith

-- The first session of an account, in the tables that the verification has updated.
first_session :
    (a : User) (k : RefreshToken) (s : ℕ) (db : Db)
    → user_by_id a.id db.users ≡ some a
    → IsSessionOf a k
    → session_ok (put_user (record a { status = verified_status a }) s db).users k ≡ true
first_session a k s db f q = ground (
  arith,
  column_at-put_user status k.user_id db (record a { status = verified_status a }) s a refl f,
  verified_allowed a,
  q.owner,
)

activate_sessions :
    (a : User) (k : RefreshToken) (s : ℕ) (db : Db)
    → user_by_id a.id db.users ≡ some a
    → IsSessionOf a k
    → AreSessionsAllowed db
    → AreSessionsAllowed (add_token k (put_user (record a { status = verified_status a }) s db))
unfolding add_token
activate_sessions a k s db f q h =
    All-append_one
      (λ x. session_ok (put_user (record a { status = verified_status a }) s db).users x ≡ true)
      (put_user (record a { status = verified_status a }) s db).refresh_tokens k
      (put_user_sessions (record a { status = verified_status a }) a s db f
        (inr (verified_allowed a)) h)
      (first_session a k s db f q)

suspend_sessions :
    (a : User) (s t : ℕ) (db : Db)
    → user_by_id a.id db.users ≡ some a
    → AreSessionsAllowed db
    → AreSessionsAllowed
        (close_tokens_of a.id t (put_user (record a { status = UserStatus.suspended }) s db))
unfolding close_tokens_of put_user
suspend_sessions a s t db f h =
    let u : User = record a { status = UserStatus.suspended } in
    All-update_where (λ k. session_ok db.users k ≡ true)
      (λ k. session_ok (put_user u s db).users k ≡ true) (is_open_token_of a.id) (set_revoked t)
      db.refresh_tokens (λ k hit m. refl) (λ k miss m. suspend_session u a s db f k miss m) h

-- Whatever a request commits, no session is open for an account that may not hold one: not for
-- an unknown account, not before the first verification, and not after a suspension.
module _ ⦃env : Env⦄ where
  -- A step of the lifecycle keeps this: whoever has an open session has an account that is active
  -- or waits for a KYC decision.
  pub Change-AreSessionsAllowed :
      {New : ℕ → Type 0} {db db' : Db}
      → Change New db db'
      → AreSessionsAllowed db
      → AreSessionsAllowed db'
  unfolding add_status_change add_role_change add_code add_attempt consume_code add_token
      close_token close_tokens_of
  Change-AreSessionsAllowed keep h = h
  Change-AreSessionsAllowed {db} (registered id phone name c t _ new _) h =
      add_user_sessions _ db new h
  Change-AreSessionsAllowed {db} (renamed a name t f) h = put_user_sessions _ a t db f (inl refl) h
  Change-AreSessionsAllowed (code_issued _ _ _ _ _) h = h
  Change-AreSessionsAllowed (code_missed _ _ _) h = h
  Change-AreSessionsAllowed (code_burnt _ _ _ _) h = h
  Change-AreSessionsAllowed {db} (logged_in o a k t _ f ok s) h =
      All-append_one (λ k. session_ok db.users k ≡ true) db.refresh_tokens k h
        (open_session a k db.users f ok s)
  Change-AreSessionsAllowed {db} (activated o a k t s i at r _ f n q) h =
      activate_sessions a k s (consume_code o.id t db) f q h
  Change-AreSessionsAllowed {db} (rotated x k a t f ok s) h =
      All-append_one (λ k. session_ok db.users k ≡ true) _ k
        (close_sessions _ t db.users db.refresh_tokens h) (open_session a k db.users f ok s)
  Change-AreSessionsAllowed {db} (session_closed i t) h =
      close_sessions _ t db.users db.refresh_tokens h
  Change-AreSessionsAllowed {db} (sessions_closed i t) h =
      close_sessions _ t db.users db.refresh_tokens h
  Change-AreSessionsAllowed {db} (suspended a s i at t r by f c) h = suspend_sessions a s t db f h
  Change-AreSessionsAllowed {db} (reinstated a s i at r by f c) h =
      put_user_sessions _ a s db f (inr (unfold is_session_allowed in refl)) h
  Change-AreSessionsAllowed {db} (role_requested a q s i at r by f _) h =
      put_user_sessions _ a s db f (inl refl) h
  Change-AreSessionsAllowed {db} (role_granted a q s i at r by f _) h =
      put_user_sessions _ a s db f (inl refl) h
  Change-AreSessionsAllowed {db} (role_decided a q b s i at r by f _ e) h =
      put_user_sessions _ a s db f (inl e) h
  Change-AreSessionsAllowed {db} (role_decided_released a q b s i j at r d by f _ e) h =
      put_user_sessions _ a s db f (inr (released_allowed a b q e)) h
