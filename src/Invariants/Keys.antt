-- ===== src/Invariants/Keys.antt =====
-- The ids stay keys of the tables of users and codes.
use diddifree_id.Prelude.{
  ℕ, ◌≡◌, refl, ◌∙◌, ap, Bool, none, some, List, [], ◌∷◌, ◌++◌, arith, All, All-map, All-append_one,
  All-update_where, find_first, find_first-update_where, find_first-append_one, update_where, ◌==◌,
  apply_if,
}
use diddifree_id.Domain.Entities.{User, OtpCode}
use diddifree_id.Platform.Database.{Db}
use diddifree_id.Platform.Environment.{Env}
use diddifree_id.Infra.Users.{
  user_by_id, add_user, put_user, assign, has_id, add_status_change, add_role_change,
}
use diddifree_id.Infra.Otps.{
  add_code, add_attempt, consume_code, has_otp_id, count_attempt, consume,
}
use diddifree_id.Infra.Tokens.{add_token, close_token, close_tokens_of}
use diddifree_id.Lifecycle.{
  Change, keep, registered, renamed, code_issued, code_missed, code_burnt, logged_in, activated,
  rotated, session_closed, sessions_closed, suspended, reinstated, role_requested, role_granted,
  role_decided, role_decided_released,
}
use diddifree_id.Lifecycle.Keyed.{IsKeyed}

module _ {A : Type 0} (key : A → ℕ) where
  abbrev at_key : ℕ → A → Bool
  at_key i x = key x == i

  abbrev Keyed : List A → Type 0
  Keyed xs = All (λ x. find_first (at_key (key x)) xs ≡ some x) xs

  Keyed-append_one :
      (xs : List A) (x : A)
      → find_first (at_key (key x)) xs ≡ none
      → Keyed xs
      → Keyed (xs ++ x ∷ [])
  Keyed-append_one xs x new h =
      All-append_one (λ y. find_first (at_key (key y)) (xs ++ x ∷ []) ≡ some y) xs x
        (All-map (λ y. find_first (at_key (key y)) xs ≡ some y)
          (λ y. find_first (at_key (key y)) (xs ++ x ∷ []) ≡ some y) xs
          (λ y e. ground (arith, e, find_first-append_one (at_key (key y)) xs x)) h)
        (ground (arith, new, find_first-append_one (at_key (key x)) xs x))

  -- A lookup in the table that an `UPDATE` leaves.
  find_updated :
      (p : A → Bool) (f : A → A) (xs : List A)
      → ((a : A) → key (f a) ≡ key a)
      → (i : ℕ) (x : A) → find_first (at_key i) xs ≡ some x
      → find_first (at_key i) (update_where p f xs) ≡ some (apply_if p f x)
  find_updated p f xs same i x e =
      find_first-update_where (at_key i) p f xs (λ a. ap (λ k. k == i) (same a)) ∙ rw e refl

  Keyed-update_where :
      (p : A → Bool) (f : A → A) (xs : List A)
      → ((a : A) → key (f a) ≡ key a)
      → Keyed xs
      → Keyed (update_where p f xs)
  Keyed-update_where p f xs same =
      All-update_where (λ x. find_first (at_key (key x)) xs ≡ some x)
        (λ y. find_first (at_key (key y)) (update_where p f xs) ≡ some y) p f xs
        (λ x hit e. rw same (find_updated p f xs same (key x) x e ∙ rw hit refl))
        (λ x miss e. find_updated p f xs same (key x) x e ∙ rw miss refl)

abbrev user_key : User → ℕ
user_key u = u.id

abbrev code_key : OtpCode → ℕ
code_key o = o.id

add_user_keys :
    (u : User) (db : Db) → user_by_id u.id db.users ≡ none → IsKeyed db → IsKeyed (add_user u db)
unfolding add_user
add_user_keys u db new h = record {
  users = Keyed-append_one user_key db.users u new h.users;
  codes = h.codes;
}

put_user_keys : (u : User) (t : ℕ) (db : Db) → IsKeyed db → IsKeyed (put_user u t db)
unfolding put_user
put_user_keys u t db h = record {
  users = Keyed-update_where user_key (has_id u.id) (assign u t) db.users (λ a. refl) h.users;
  codes = h.codes;
}

add_code_keys :
    (o : OtpCode) (db : Db)
    → find_first (has_otp_id o.id) db.otp_codes ≡ none
    → IsKeyed db
    → IsKeyed (add_code o db)
unfolding add_code
add_code_keys o db new h = record {
  users = h.users;
  codes = Keyed-append_one code_key db.otp_codes o new h.codes;
}

update_codes_keys :
    (i : ℕ) (f : OtpCode → OtpCode) (db : Db)
    → ((a : OtpCode) → (f a).id ≡ a.id)
    → IsKeyed db
    → IsKeyed (record db { otp_codes = update_where (has_otp_id i) f db.otp_codes })
update_codes_keys i f db same h = record {
  users = h.users;
  codes = Keyed-update_where code_key (has_otp_id i) f db.otp_codes same h.codes;
}

consume_keys : (i t : ℕ) (db : Db) → IsKeyed db → IsKeyed (consume_code i t db)
unfolding consume_code
consume_keys i t db = update_codes_keys i (consume t) db (λ a. refl)

attempt_keys : (i : ℕ) (db : Db) → IsKeyed db → IsKeyed (add_attempt i db)
unfolding add_attempt
attempt_keys i db = update_codes_keys i count_attempt db (λ a. refl)

-- The statements on other tables.
frame_keys :
    (db db' : Db) → db'.users ≡ db.users → db'.otp_codes ≡ db.otp_codes → IsKeyed db → IsKeyed db'
frame_keys db db' eu ec h = record { users = rw eu h.users; codes = rw ec h.codes }

module _ ⦃env : Env⦄ where
  -- A step of the lifecycle keeps the ids of accounts and codes as keys: a lookup by the id of a
  -- row gives that row.
  pub Change-IsKeyed :
      {New : ℕ → Type 0} {db db' : Db} → Change New db db' → IsKeyed db → IsKeyed db'
  unfolding add_status_change add_role_change add_token close_token close_tokens_of
  Change-IsKeyed keep h = h
  Change-IsKeyed {db} (registered id phone name c t _ new _) h = add_user_keys _ db new h
  Change-IsKeyed {db} (renamed a name t f) h = put_user_keys _ t db h
  Change-IsKeyed {db} (code_issued o _ new _ _) h = add_code_keys o db new h
  Change-IsKeyed {db} (code_missed o _ _) h = attempt_keys o.id db h
  Change-IsKeyed {db} (code_burnt o t _ _) h = consume_keys o.id t _ (attempt_keys o.id db h)
  Change-IsKeyed {db} (logged_in o a k t _ f ok s) h =
      frame_keys (consume_code o.id t db) _ refl refl (consume_keys o.id t db h)
  Change-IsKeyed {db} (activated o a k t s i at r _ f n q) h =
      frame_keys (put_user _ s (consume_code o.id t db)) _ refl refl
        (put_user_keys _ s (consume_code o.id t db) (consume_keys o.id t db h))
  Change-IsKeyed {db} (rotated x k a t f ok s) h = frame_keys db _ refl refl h
  Change-IsKeyed {db} (session_closed i t) h = frame_keys db _ refl refl h
  Change-IsKeyed {db} (sessions_closed i t) h = frame_keys db _ refl refl h
  Change-IsKeyed {db} (suspended a s i at t r by f c) h =
      frame_keys (put_user _ s db) _ refl refl (put_user_keys _ s db h)
  Change-IsKeyed {db} (reinstated a s i at r by f c) h =
      frame_keys (put_user _ s db) _ refl refl (put_user_keys _ s db h)
  Change-IsKeyed {db} (role_requested a q s i at r by f _) h =
      frame_keys (put_user _ s db) _ refl refl (put_user_keys _ s db h)
  Change-IsKeyed {db} (role_granted a q s i at r by f _) h =
      frame_keys (put_user _ s db) _ refl refl (put_user_keys _ s db h)
  Change-IsKeyed {db} (role_decided a q b s i at r by f _ e) h =
      frame_keys (put_user _ s db) _ refl refl (put_user_keys _ s db h)
  Change-IsKeyed {db} (role_decided_released a q b s i j at r d by f _ e) h =
      frame_keys (put_user _ s db) _ refl refl (put_user_keys _ s db h)
