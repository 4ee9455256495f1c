-- ===== src/Invariants/Columns.antt =====
-- A column of the account with an id, and what the statements on users make of it.
use diddifree_id.Prelude.{
  ℕ, ◌≡◌, ◌≢◌, refl, ◌∙◌, ap, subst, Option, none, some, List, arith, find_first-update_where,
  find_first-append_one, find_first-holds, map_option, apply_if, ◌==◌, if◌then◌else◌, Bool-cases,
  Option-cases, inl, inr,
}
use diddifree_id.Domain.Entities.{User}
use diddifree_id.Platform.Database.{Db}
use diddifree_id.Infra.Users.{user_by_id, has_id, assign, put_user, add_user}

abbrev pub column : {X : Type 0} → (User → X) → Option User → Option X
column g none = none
column g (some u) = some (g u)

abbrev pub column_at : {X : Type 0} → (User → X) → ℕ → List User → Option X
column_at g i us = column g (user_by_id i us)

-- A row with the id of the row written is rewritten, and no other.
user_by_id-put_user :
    (i t : ℕ) (u : User) (db : Db)
    → user_by_id i (put_user u t db).users
      ≡ map_option (apply_if (has_id u.id) (assign u t)) (user_by_id i db.users)
unfolding put_user
user_by_id-put_user i t u db =
    find_first-update_where (has_id i) (has_id u.id) (assign u t) db.users (λ a. refl)

pub put_hit :
    (i t : ℕ) (u a : User) (db : Db)
    → user_by_id u.id db.users ≡ some a
    → u.id ≡ i
    → user_by_id i (put_user u t db).users ≡ some (assign u t a)
put_hit i t u a db h e =
    let found = subst (λ k. user_by_id k db.users ≡ some a) e h in
    let same = find_first-holds (has_id i) db.users found in
    user_by_id-put_user i t u db ∙ rw found (ground arith)

pub put_miss :
    (i t : ℕ) (u : User) (db : Db)
    → u.id ≢ i
    → user_by_id i (put_user u t db).users ≡ user_by_id i db.users
put_miss i t u db ne = elim (Option-cases (user_by_id i db.users)) [
  | inl e ↦ rw (user_by_id-put_user, e) refl
  | inr (b, e) ↦
      (let same = find_first-holds (has_id i) db.users e in
        user_by_id-put_user i t u db ∙ rw e (ground arith))
]

add_hit :
    (i : ℕ) (u : User) (db : Db)
    → user_by_id u.id db.users ≡ none
    → u.id ≡ i
    → user_by_id i (add_user u db).users ≡ some u
unfolding add_user
add_hit i u db h e =
    let absent = subst (λ k. user_by_id k db.users ≡ none) e h in
    find_first-append_one (has_id i) db.users u ∙ rw absent (ground arith)

add_miss :
    (i : ℕ) (u : User) (db : Db)
    → u.id ≢ i
    → user_by_id i (add_user u db).users ≡ user_by_id i db.users
unfolding add_user
add_miss i u db ne = ground (arith, find_first-append_one (has_id i) db.users u)

module _ {X : Type 0} (g : User → X) (i : ℕ) (db : Db) (u : User) where
  pub column_at-put_user :
      (t : ℕ) (a : User)
      → g (assign u t a) ≡ g u
      → user_by_id u.id db.users ≡ some a
      → column_at g i (put_user u t db).users
        ≡ (if u.id == i then some (g u) else column_at g i db.users)
  column_at-put_user t a same h = elim (Bool-cases (u.id == i)) [
    | inl e ↦ rw (e, put_hit i t u a db h (ground arith)) (ap some same)
    | inr e ↦ rw (e, put_miss i t u db (ground arith)) refl
  ]

  pub column_at-add_user :
      user_by_id u.id db.users ≡ none
      → column_at g i (add_user u db).users
        ≡ (if u.id == i then some (g u) else column_at g i db.users)
  column_at-add_user h = elim (Bool-cases (u.id == i)) [
    | inl e ↦ rw (e, add_hit i u db h (ground arith)) refl
    | inr e ↦ rw (e, add_miss i u db (ground arith)) refl
  ]

pub column_at-found :
    {X : Type 0} (g : User → X) (i j : ℕ) (us : List User) {a : User}
    → user_by_id i us ≡ some a
    → i ≡ j
    → column_at g j us ≡ some (g a)
column_at-found g i j us {a} h e = subst (λ k. column_at g k us ≡ some (g a)) e (rw h refl)

pub column_at-absent :
    {X : Type 0} (g : User → X) (i j : ℕ) (us : List User)
    → user_by_id i us ≡ none
    → i ≡ j
    → column_at g j us ≡ none
column_at-absent g i j us h e = subst (λ k. column_at g k us ≡ none) e (rw h refl)
