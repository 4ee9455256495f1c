-- ===== src/Invariants/Roles.antt =====
-- Who gets the role of a driver or a merchant.
use diddifree_id.Prelude.{
  ℕ, ◌≡◌, refl, ◌⊎◌, inl, inr, Bool, true, false, Option, none, some, arith, Bool-cases, ◌==◌,
}
use diddifree_id.Domain.Access.{UserRole, UserStatus, is_kyc_required}
use diddifree_id.Domain.Entities.{User}
use diddifree_id.Platform.Database.{Db}
use diddifree_id.Platform.Environment.{Env}
use diddifree_id.Infra.Users.{
  user_by_id, new_row, add_user, put_user, add_status_change, add_role_change,
}
use diddifree_id.Infra.Otps.{add_code, add_attempt, consume_code}
use diddifree_id.Infra.Tokens.{add_token, close_token, close_tokens_of}
use diddifree_id.Commands.RegisterUser.{new_user}
use diddifree_id.Commands.VerifyOtp.{verified_status}
use diddifree_id.Commands.DecideKyc.{decided}
use diddifree_id.Lifecycle.{
  Change, keep, registered, renamed, code_issued, code_missed, code_burnt, logged_in, activated,
  rotated, session_closed, sessions_closed, suspended, reinstated, role_requested, role_granted,
  role_decided, role_decided_released,
}
use diddifree_id.Invariants.Columns.{
  column_at, column_at-put_user, column_at-add_user, column_at-found,
}

abbrev pub role : User → UserRole
role u = u.role

abbrev pub requested : User → Option UserRole
requested u = u.requested_role

-- The account had the role, or asked for it and waited for a decision.
abbrev pub HadOrRequested : ℕ → UserRole → Db → Type 0
HadOrRequested i r db =
    (column_at role i db.users ≡ some r) ⊎ (column_at requested i db.users ≡ some (some r))

-- Where a role may come from that a statement on an account writes.
abbrev IsEarned : User → User → Type 0
IsEarned u a =
    (u.role ≡ a.role) ⊎ ((is_kyc_required u.role ≡ false) ⊎ (a.requested_role ≡ some u.role))

module _ (i : ℕ) (r : UserRole) (needs : is_kyc_required r ≡ true) (db : Db) where
  put_user_role :
      (u a : User) (t : ℕ)
      → user_by_id u.id db.users ≡ some a
      → IsEarned u a
      → column_at role i (put_user u t db).users ≡ some r
      → HadOrRequested i r db
  put_user_role u a t f e h = elim (Bool-cases (u.id == i)) [
    | inr ne ↦ inl (ground (arith, h, ne, column_at-put_user role i db u t a refl f))
    | inl same ↦
        let p = column_at-put_user role i db u t a refl f in
        let ij : u.id ≡ i = ground (arith, same) in
        let had = column_at-found role u.id i db.users f ij in
        let asked = column_at-found requested u.id i db.users f ij in
        let q : u.role ≡ r = ground (arith, h, p, same) in
        elim e [
          | inl k ↦ inl (ground (arith, had, q, k))
          | inr (inl k) ↦ absurd (ground (arith, needs, q, k))
          | inr (inr k) ↦ inr (ground (arith, asked, q, k))
        ]
  ]

  add_user_role :
      (u : User)
      → user_by_id u.id db.users ≡ none
      → u.role ≡ UserRole.user
      → column_at role i (add_user u db).users ≡ some r
      → HadOrRequested i r db
  unfolding is_kyc_required
  add_user_role u f e h = inl (ground (arith, h, e, needs, column_at-add_user role i db u f))

  decided-IsEarned :
      (a : User) (b : Bool) (q : UserRole) → a.requested_role ≡ some q → IsEarned (decided a b q) a
  decided-IsEarned a true q e = inr (inr e)
  decided-IsEarned a false q e = inl refl

module _ ⦃env : Env⦄ (i : ℕ) (r : UserRole) (needs : is_kyc_required r ≡ true) where
  -- After a step of the lifecycle, an account with a role that needs a KYC decision (driver or
  -- merchant) had that role before the step, or had a pending request for exactly that role.
  pub Change-HadOrRequested :
      {New : ℕ → Type 0} {db db' : Db}
      → Change New db db'
      → column_at role i db'.users ≡ some r
      → HadOrRequested i r db
  unfolding add_status_change add_role_change add_code add_attempt consume_code add_token
      close_token close_tokens_of
  Change-HadOrRequested keep h = inl h
  Change-HadOrRequested {db = db} (registered id phone name c t _ f _) h =
      add_user_role i r needs db (new_row (new_user id phone name c) t) f refl h
  Change-HadOrRequested {db = db} (renamed a name t f) h =
      put_user_role i r needs db (record a { full_name = name }) a t f (inl refl) h
  Change-HadOrRequested (code_issued _ _ _ _ _) h = inl h
  Change-HadOrRequested (code_missed _ _ _) h = inl h
  Change-HadOrRequested (code_burnt _ _ _ _) h = inl h
  Change-HadOrRequested (logged_in _ _ _ _ _ _ _ _) h = inl h
  Change-HadOrRequested {db = db} (activated o a k t s j at _ _ f _ _) h =
      put_user_role i r needs (consume_code o.id t db) (record a { status = verified_status a }) a s
        f (inl refl) h
  Change-HadOrRequested (rotated _ _ _ _ _ _ _) h = inl h
  Change-HadOrRequested (session_closed _ _) h = inl h
  Change-HadOrRequested (sessions_closed _ _) h = inl h
  Change-HadOrRequested {db = db} (suspended a s _ _ _ _ _ f _) h =
      put_user_role i r needs db (record a { status = UserStatus.suspended }) a s f (inl refl) h
  Change-HadOrRequested {db = db} (reinstated a s _ _ _ _ f _) h =
      put_user_role i r needs db (record a { status = UserStatus.active }) a s f (inl refl) h
  Change-HadOrRequested {db = db} (role_requested a q s _ _ _ _ f _) h =
      put_user_role i r needs db (record a { requested_role = some q }) a s f (inl refl) h
  Change-HadOrRequested {db = db} (role_granted a q s _ _ _ _ f n) h =
      put_user_role i r needs db (record a { role = q; requested_role = none }) a s f (inr (inl n))
        h
  Change-HadOrRequested {db = db} (role_decided a q b s _ _ _ _ f e _) h =
      put_user_role i r needs db (decided a b q) a s f (decided-IsEarned i r needs db a b q e) h
  Change-HadOrRequested {db = db} (role_decided_released a q b s _ _ _ _ _ _ f e _) h =
      put_user_role i r needs db (decided a b q) a s f (decided-IsEarned i r needs db a b q e) h
