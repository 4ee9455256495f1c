-- ===== src/Invariants/Audit.antt =====
-- The audit trail of statuses: replaying the rows of an account gives its status, and every row
-- starts where the one before it ended and is a transition that the table of transitions allows.
use diddifree_id.Prelude.{
  ℕ, String, ◌≡◌, refl, sym, ◌∙◌, ap, subst, Bool, true, false, ◌&&◌, Option, none, some, List, [],
  ◌∷◌, ◌++◌, arith, or_else, ◌==◌, if◌then◌else◌, Bool-cases, inl, inr,
}
use diddifree_id.Domain.Access.{UserRole, UserStatus, status_eq, status_eq_iff, can_transition}
use diddifree_id.Domain.Entities.{User, OtpCode, UserStatusChange}
use diddifree_id.Platform.Database.{Db}
use diddifree_id.Platform.Environment.{Env}
use diddifree_id.Infra.Users.{user_by_id, add_user, put_user, add_status_change, add_role_change}
use diddifree_id.Infra.Otps.{add_code, add_attempt, consume_code}
use diddifree_id.Infra.Tokens.{add_token, close_token, close_tokens_of}
use diddifree_id.Commands.Rows.{status_change}
use diddifree_id.Commands.VerifyOtp.{verified_status}
use diddifree_id.Commands.DecideKyc.{decided}
use diddifree_id.Lifecycle.{
  Change, keep, registered, renamed, code_issued, code_missed, code_burnt, logged_in, activated,
  rotated, session_closed, sessions_closed, suspended, reinstated, role_requested, role_granted,
  role_decided, role_decided_released,
}
use diddifree_id.Invariants.Columns.{
  column_at, column_at-put_user, column_at-add_user, column_at-found, column_at-absent,
}
use diddifree_id.Invariants.Sessions.{status}

-- The status that the rows of an account lead to, from a first status.
abbrev after : ℕ → UserStatusChange → UserStatus → UserStatus
after i c s = if c.user_id == i then c.to_status else s

unfoldable pub last_status : UserStatus → ℕ → List UserStatusChange → UserStatus
last_status s i [] = s
last_status s i (c ∷ cs) = last_status (after i c s) i cs

abbrev came_from : Option UserStatus → UserStatus → Bool
came_from none s = false
came_from (some f) s = status_eq f s

-- A row of the account is a transition from its status.
abbrev is_step : ℕ → UserStatus → UserStatusChange → Bool
is_step i s c =
    if c.user_id == i then came_from c.from_status s && can_transition s c.to_status else true

unfoldable pub is_trail : UserStatus → ℕ → List UserStatusChange → Bool
is_trail s i [] = true
is_trail s i (c ∷ cs) = is_step i s c && is_trail (after i c s) i cs

-- An account that is not there yet is as one that was never verified.
abbrev pub status_of : ℕ → Db → UserStatus
status_of i db = or_else (column_at status i db.users) UserStatus.pending_verification

pub record IsAudited (db : Db) : Type 0 where
  pub trail : (i : ℕ) → is_trail UserStatus.pending_verification i db.user_status_history ≡ true
  pub current :
      (i : ℕ)
      → last_status UserStatus.pending_verification i db.user_status_history ≡ status_of i db

last_status-append_one :
    (s : UserStatus) (i : ℕ) (cs : List UserStatusChange) (c : UserStatusChange)
    → last_status s i (cs ++ c ∷ []) ≡ after i c (last_status s i cs)
unfolding last_status
last_status-append_one s i [] c = refl
last_status-append_one s i (d ∷ cs) c = last_status-append_one (after i d s) i cs c

is_trail-append_one :
    (s : UserStatus) (i : ℕ) (cs : List UserStatusChange) (c : UserStatusChange)
    → is_trail s i cs ≡ true
    → is_step i (last_status s i cs) c ≡ true
    → is_trail s i (cs ++ c ∷ []) ≡ true
unfolding is_trail last_status
is_trail-append_one s i [] c h st = ground (arith, st)
is_trail-append_one s i (d ∷ cs) c h st =
    ground (arith, h, is_trail-append_one (after i d s) i cs c, st)

-- A write that leaves the status of an account as it was.
put_user_same :
    (u a : User) (t i : ℕ) (db : Db)
    → user_by_id u.id db.users ≡ some a
    → u.status ≡ a.status
    → status_of i (put_user u t db) ≡ status_of i db
put_user_same u a t i db f same = elim (Bool-cases (u.id == i)) [
  | inl e ↦ ground (
    arith,
    column_at-put_user status i db u t a refl f,
    column_at-found status u.id i db.users f (ground arith),
    same,
    e,
  )
  | inr e ↦ ground (arith, column_at-put_user status i db u t a refl f, e)
]

put_user-IsAudited :
    (u a : User) (t : ℕ) (db : Db)
    → user_by_id u.id db.users ≡ some a
    → u.status ≡ a.status
    → IsAudited db
    → IsAudited (put_user u t db)
put_user-IsAudited u a t db f same h = record {
  trail = unfold put_user in h.trail;
  current = λ i. unfold put_user in h.current i ∙ sym (put_user_same u a t i db f same);
}

-- A write of a new status, with its row.
module _ (u a : User) (t j at : ℕ) (r : Option String) (by : Option ℕ) (db : Db)
    (f : user_by_id u.id db.users ≡ some a) where
  abbrev moved : Db
  moved = add_status_change (status_change j u.id a.status u.status r by at) (put_user u t db)

  status_of-moved : (i : ℕ) → status_of i moved ≡ (if u.id == i then u.status else status_of i db)
  unfolding add_status_change
  status_of-moved i = elim (Bool-cases (u.id == i)) [
    | inl e ↦ ground (arith, column_at-put_user status i db u t a refl f, e)
    | inr e ↦ ground (arith, column_at-put_user status i db u t a refl f, e)
  ]

  status_of-mover : (i : ℕ) → (u.id == i) ≡ true → status_of i db ≡ a.status
  status_of-mover i e = ground (arith, column_at-found status u.id i db.users f (ground arith))

  moved_step :
      (i : ℕ)
      → can_transition a.status u.status ≡ true
      → is_step i (status_of i db) (status_change j u.id a.status u.status r by at) ≡ true
  moved_step i ok = elim (Bool-cases (u.id == i)) [
    | inr e ↦ ground (arith, e)
    | inl e ↦ ground (
      arith,
      e,
      status_of-mover i e,
      ok,
      (status_eq_iff a.status (status_of i db)).1 (sym (status_of-mover i e)),
    )
  ]

  last_status-moved :
      (i : ℕ)
      → last_status UserStatus.pending_verification i moved.user_status_history ≡ (
          if u.id == i
          then u.status
          else last_status UserStatus.pending_verification i db.user_status_history)
  unfolding add_status_change put_user
  last_status-moved i =
      last_status-append_one UserStatus.pending_verification i db.user_status_history
        (status_change j u.id a.status u.status r by at)

  is_trail-moved :
      (i : ℕ)
      → is_trail UserStatus.pending_verification i db.user_status_history ≡ true
      → is_step i
          (last_status UserStatus.pending_verification i db.user_status_history)
          (status_change j u.id a.status u.status r by at)
        ≡ true
      → is_trail UserStatus.pending_verification i moved.user_status_history ≡ true
  unfolding add_status_change put_user
  is_trail-moved i =
      is_trail-append_one UserStatus.pending_verification i db.user_status_history
        (status_change j u.id a.status u.status r by at)

  moved-IsAudited : can_transition a.status u.status ≡ true → IsAudited db → IsAudited moved
  moved-IsAudited ok h = record {
    trail = λ i. is_trail-moved i (h.trail i) (rw (h.current i) (moved_step i ok));
    current = λ i.
        last_status-moved i
        ∙ ap (λ s. if u.id == i then u.status else s) (h.current i)
        ∙ sym (status_of-moved i);
  }

add_user_same :
    (u : User) (i : ℕ) (db : Db)
    → user_by_id u.id db.users ≡ none
    → u.status ≡ UserStatus.pending_verification
    → status_of i (add_user u db) ≡ status_of i db
add_user_same u i db new s = elim (Bool-cases (u.id == i)) [
  | inl e ↦ ground (
    arith,
    column_at-add_user status i db u new,
    column_at-absent status u.id i db.users new (ground arith),
    s,
    e,
  )
  | inr e ↦ ground (arith, column_at-add_user status i db u new, e)
]

add_user-IsAudited :
    (u : User) (db : Db)
    → user_by_id u.id db.users ≡ none
    → u.status ≡ UserStatus.pending_verification
    → IsAudited db
    → IsAudited (add_user u db)
add_user-IsAudited u db new s h = record {
  trail = unfold add_user in h.trail;
  current = λ i. unfold add_user in h.current i ∙ sym (add_user_same u i db new s);
}

verified_step :
    (a : User)
    → a.status ≡ UserStatus.pending_verification
    → can_transition a.status (verified_status a) ≡ true
unfolding can_transition
verified_step a n = ground arith

released_step :
    (a : User)
    → a.status ≡ UserStatus.pending_kyc
    → can_transition a.status UserStatus.active ≡ true
unfolding can_transition
released_step a n = ground arith

released_status :
    (a : User) (b : Bool) (q : UserRole)
    → a.status ≡ UserStatus.pending_kyc
    → (decided a b q).status ≡ UserStatus.active
released_status a b q n = ground arith

-- The statements on other tables.
frame-IsAudited :
    (db db' : Db)
    → db'.users ≡ db.users
    → db'.user_status_history ≡ db.user_status_history
    → IsAudited db
    → IsAudited db'
frame-IsAudited db db' eu eh h = record {
  trail = λ i. rw eh (h.trail i);
  current = λ i. rw (eh, eu) (h.current i);
}

activated-IsAudited :
    (o : OtpCode) (a : User) (t s j at : ℕ) (r : Option String) (db : Db)
    → user_by_id a.id db.users ≡ some a
    → a.status ≡ UserStatus.pending_verification
    → IsAudited db
    → IsAudited (
        add_status_change
          (status_change j a.id UserStatus.pending_verification (verified_status a) r none at)
          (put_user (record a { status = verified_status a }) s (consume_code o.id t db)))
unfolding consume_code
activated-IsAudited o a t s j at r db f n h = rw (← n) (
    moved-IsAudited (record a { status = verified_status a }) a s j at r none
      (consume_code o.id t db) f (verified_step a n)
      (frame-IsAudited db (consume_code o.id t db) refl refl h))

released-IsAudited :
    (a : User) (q : UserRole) (b : Bool) (s j at : ℕ) (d : Option String) (by : Option ℕ) (db : Db)
    → user_by_id a.id db.users ≡ some a
    → a.status ≡ UserStatus.pending_kyc
    → IsAudited db
    → IsAudited (
        add_status_change
          (status_change j a.id a.status UserStatus.active d by at)
          (put_user (decided a b q) s db))
released-IsAudited a q b s j at d by db f n h =
    subst
      (λ x. IsAudited (
        add_status_change (status_change j a.id a.status x d by at)
          (put_user (decided a b q) s db)))
      (released_status a b q n)
      (moved-IsAudited (decided a b q) a s j at d by db f
        (subst (λ x. can_transition a.status x ≡ true) (sym (released_status a b q n))
          (released_step a n))
        h)

module _ ⦃env : Env⦄ where
  -- A step of the lifecycle keeps the audit trail: the rows of the status history of each account
  -- are allowed transitions, each from the status before it, that lead from pending_verification
  -- to the status of the account.
  pub Change-IsAudited :
      {New : ℕ → Type 0} {db db' : Db} → Change New db db' → IsAudited db → IsAudited db'
  unfolding add_role_change add_code add_attempt consume_code add_token close_token close_tokens_of
  Change-IsAudited {db} (registered id phone name c t _ new _) h =
      add_user-IsAudited _ db new refl h
  Change-IsAudited {db} (renamed a name t f) h = put_user-IsAudited _ a t db f refl h
  Change-IsAudited {db} (activated o a k t s i at r _ f n q) h =
      frame-IsAudited
        (add_status_change
          (status_change i a.id UserStatus.pending_verification (verified_status a) r none at)
          (put_user (record a { status = verified_status a }) s (consume_code o.id t db)))
        _ refl refl (activated-IsAudited o a t s i at r db f n h)
  Change-IsAudited {db} (suspended a s i at t r by f c) h =
      frame-IsAudited _ _ refl refl
        (moved-IsAudited (record a { status = UserStatus.suspended }) a s i at r by db f c h)
  Change-IsAudited {db} (reinstated a s i at r by f c) h =
      moved-IsAudited (record a { status = UserStatus.active }) a s i at r by db f c h
  Change-IsAudited {db} (role_requested a q s i at r by f _) h =
      frame-IsAudited _ _ refl refl
        (put_user-IsAudited (record a { requested_role = some q }) a s db f refl h)
  Change-IsAudited {db} (role_granted a q s i at r by f _) h =
      frame-IsAudited _ _ refl refl
        (put_user-IsAudited (record a { role = q; requested_role = none }) a s db f refl h)
  Change-IsAudited {db} (role_decided a q b s i at r by f _ e) h =
      frame-IsAudited _ _ refl refl (put_user-IsAudited (decided a b q) a s db f e h)
  Change-IsAudited {db} (role_decided_released a q b s i j at r d by f _ e) h =
      frame-IsAudited _ _ refl refl (released-IsAudited a q b s j at d by db f e h)
  Change-IsAudited {db} keep h = h
  Change-IsAudited {db} (code_issued _ _ _ _ _) h = frame-IsAudited db _ refl refl h
  Change-IsAudited {db} (code_missed _ _ _) h = frame-IsAudited db _ refl refl h
  Change-IsAudited {db} (code_burnt _ _ _ _) h = frame-IsAudited db _ refl refl h
  Change-IsAudited {db} (logged_in _ _ _ _ _ _ _ _) h = frame-IsAudited db _ refl refl h
  Change-IsAudited {db} (rotated _ _ _ _ _ _ _) h = frame-IsAudited db _ refl refl h
  Change-IsAudited {db} (session_closed _ _) h = frame-IsAudited db _ refl refl h
  Change-IsAudited {db} (sessions_closed _ _) h = frame-IsAudited db _ refl refl h
