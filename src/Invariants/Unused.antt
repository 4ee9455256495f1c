-- ===== src/Invariants/Unused.antt =====
-- Ids that no table holds, through a step of the lifecycle.
use diddifree_id.Prelude.{
  ℕ, ◌≡◌, ◌≢◌, ◌∙◌, ap, refl, subst, Bool, List, none, some, arith, find_first, update_where,
  find_first-update_where, find_first-append_one, map_option, apply_if,
}
use diddifree_id.Domain.Access.{UserStatus}
use diddifree_id.Domain.Entities.{User, OtpCode}
use diddifree_id.Platform.Database.{Db}
use diddifree_id.Platform.Environment.{Env}
use diddifree_id.Infra.Users.{
  user_by_id, has_id, assign, add_user, put_user, add_status_change, add_role_change,
}
use diddifree_id.Infra.Otps.{
  has_otp_id, count_attempt, consume, add_code, add_attempt, consume_code,
}
use diddifree_id.Infra.Tokens.{add_token, close_token, close_tokens_of}
use diddifree_id.Commands.VerifyOtp.{verified_status}
use diddifree_id.Commands.DecideKyc.{decided}
use diddifree_id.Lifecycle.{
  Change, keep, registered, renamed, code_issued, code_missed, code_burnt, logged_in, activated,
  rotated, session_closed, sessions_closed, suspended, reinstated, role_requested, role_granted,
  role_decided, role_decided_released,
}

pub record IsUnused (i : ℕ) (db : Db) : Type 0 where
  pub user : user_by_id i db.users ≡ none
  pub code : find_first (has_otp_id i) db.otp_codes ≡ none

find_first-update_where-none :
    {A : Type 0} (q p : A → Bool) (f : A → A) (xs : List A)
    → ((a : A) → q (f a) ≡ q a)
    → find_first q xs ≡ none
    → find_first q (update_where p f xs) ≡ none
find_first-update_where-none q p f xs same h =
    find_first-update_where q p f xs same ∙ ap (map_option (apply_if p f)) h

module _ (i : ℕ) (db : Db) (h : IsUnused i db) where
  put_user-IsUnused : (u : User) (t : ℕ) → IsUnused i (put_user u t db)
  unfolding put_user
  put_user-IsUnused u t = record {
    user =
        find_first-update_where-none (has_id i) (has_id u.id) (assign u t) db.users (λ a. refl)
          h.user;
    code = h.code;
  }

  add_user-IsUnused : (u : User) → u.id ≢ i → IsUnused i (add_user u db)
  unfolding add_user
  add_user-IsUnused u ne = record {
    user = let e = find_first-append_one (has_id i) db.users u in ground (arith, e, ne, h.user);
    code = h.code;
  }

  add_code-IsUnused : (o : OtpCode) → o.id ≢ i → IsUnused i (add_code o db)
  unfolding add_code
  add_code-IsUnused o ne = record {
    user = h.user;
    code =
        let e = find_first-append_one (has_otp_id i) db.otp_codes o in
        ground (arith, e, ne, h.code);
  }

  add_attempt-IsUnused : (j : ℕ) → IsUnused i (add_attempt j db)
  unfolding add_attempt
  add_attempt-IsUnused j = record {
    user = h.user;
    code =
        find_first-update_where-none (has_otp_id i) (has_otp_id j) count_attempt db.otp_codes
          (λ a. refl) h.code;
  }

  consume_code-IsUnused : (j t : ℕ) → IsUnused i (consume_code j t db)
  unfolding consume_code
  consume_code-IsUnused j t = record {
    user = h.user;
    code =
        find_first-update_where-none (has_otp_id i) (has_otp_id j) (consume t) db.otp_codes
          (λ a. refl) h.code;
  }

  -- The statements on other tables.
  frame-IsUnused : (db' : Db) → db'.users ≡ db.users → db'.otp_codes ≡ db.otp_codes → IsUnused i db'
  frame-IsUnused db' u c = record { user = rw u h.user; code = rw c h.code }

module _ ⦃env : Env⦄ (New : ℕ → Type 0) (i : ℕ) (old : New i → ⊥) where
  pub Change-IsUnused : {db db' : Db} → Change New db db' → IsUnused i db → IsUnused i db'
  unfolding add_status_change add_role_change add_token close_token close_tokens_of
  Change-IsUnused keep h = h
  Change-IsUnused {db} (registered id phone name c t new _ _) h =
      add_user-IsUnused i db h _ (λ e. old (subst New e new))
  Change-IsUnused {db} (renamed a name t _) h = put_user-IsUnused i db h _ t
  Change-IsUnused {db} (code_issued o new _ _ _) h =
      add_code-IsUnused i db h o (λ e. old (subst New e new))
  Change-IsUnused {db} (code_missed o _ _) h = add_attempt-IsUnused i db h o.id
  Change-IsUnused {db} (code_burnt o t _ _) h =
      consume_code-IsUnused i (add_attempt o.id db) (add_attempt-IsUnused i db h o.id) o.id t
  Change-IsUnused {db} (logged_in o a k t _ _ _ _) h =
      frame-IsUnused i (consume_code o.id t db) (consume_code-IsUnused i db h o.id t) _ refl refl
  Change-IsUnused {db} (activated o a k t s j at r _ _ _ _) h =
      let c = consume_code-IsUnused i db h o.id t in
      let u = record a { status = verified_status a } in
      frame-IsUnused i (put_user u s (consume_code o.id t db))
        (put_user-IsUnused i (consume_code o.id t db) c u s) _ refl refl
  Change-IsUnused {db} (rotated _ _ _ _ _ _ _) h = frame-IsUnused i db h _ refl refl
  Change-IsUnused {db} (session_closed _ _) h = frame-IsUnused i db h _ refl refl
  Change-IsUnused {db} (sessions_closed _ _) h = frame-IsUnused i db h _ refl refl
  Change-IsUnused {db} (suspended a s _ _ _ _ _ _ _) h =
      let u = record a { status = UserStatus.suspended } in
      frame-IsUnused i (put_user u s db) (put_user-IsUnused i db h u s) _ refl refl
  Change-IsUnused {db} (reinstated a s _ _ _ _ _ _) h =
      let u = record a { status = UserStatus.active } in
      frame-IsUnused i (put_user u s db) (put_user-IsUnused i db h u s) _ refl refl
  Change-IsUnused {db} (role_requested a q s _ _ _ _ _ _) h =
      let u = record a { requested_role = some q } in
      frame-IsUnused i (put_user u s db) (put_user-IsUnused i db h u s) _ refl refl
  Change-IsUnused {db} (role_granted a q s _ _ _ _ _ _) h =
      let u = record a { role = q; requested_role = none } in
      frame-IsUnused i (put_user u s db) (put_user-IsUnused i db h u s) _ refl refl
  Change-IsUnused {db} (role_decided a q b s _ _ _ _ _ _ _) h =
      frame-IsUnused i (put_user (decided a b q) s db) (put_user-IsUnused i db h (decided a b q) s)
        _ refl refl
  Change-IsUnused {db} (role_decided_released a q b s _ _ _ _ _ _ _ _ _) h =
      frame-IsUnused i (put_user (decided a b q) s db) (put_user-IsUnused i db h (decided a b q) s)
        _ refl refl
