-- ===== src/Queries/Pages.antt =====
-- What a list replies, on every branch: queries/list_users.py.
use diddifree_id.Prelude.{
  ℕ, ◌*◌, ◌-◌, ◌≤◌, ◌<◌, ◌≡◌, ◌≢◌, refl, sym, subst, ap, String, true, false, Option, none, some,
  List, [], ◌∷◌, inl, inr, Bool-cases, Option-cases, ltb, ◌==◌, eq_iff, arith,
}
use diddifree_id.Prelude.Lists.{length}
use diddifree_id.Prelude.Slices.{IsSlice, take-IsSlice}
use diddifree_id.Domain.Access.{
  UserRole, UserStatus, role_value, status_value, role_of_value, status_of_value,
  role_of_value-role_value, status_of_value-status_value,
}
use diddifree_id.Domain.Entities.{User}
use diddifree_id.Platform.Environment.{Env}
use diddifree_id.Platform.Monad.{
  World, Result, refusal, ok, field_accepted, invalid_role, invalid_status,
}
use diddifree_id.Infra.Reads.{
  Filters, selected, page_of, clamp_page, clamp_page_size, max_page_size,
}
use diddifree_id.Queries.ListUsers.{
  UserList, is_unknown_role, is_unknown_status, payloads, list_users,
}
use diddifree_id.Queries.Walk.{length-selected}
use diddifree_id.Queries.Listing.{IsListing, selected-IsListing}

role_value-role_of_value :
    (text : String) {r : UserRole} → role_of_value text ≡ some r → role_value r ≡ text
unfolding role_of_value role_value
role_value-role_of_value text {r = UserRole.user} h = ground (arith, h, eq_iff text "user")
role_value-role_of_value text {r = UserRole.driver} h = ground (arith, h, eq_iff text "driver")
role_value-role_of_value text {r = UserRole.merchant} h = ground (arith, h, eq_iff text "merchant")
role_value-role_of_value text {r = UserRole.admin} h = ground (arith, h, eq_iff text "admin")

status_value-status_of_value :
    (text : String) {r : UserStatus} → status_of_value text ≡ some r → status_value r ≡ text
unfolding status_of_value status_value
status_value-status_of_value text {r = UserStatus.pending_verification} h =
    ground (arith, h, eq_iff text "pending_verification")
status_value-status_of_value text {r = UserStatus.pending_kyc} h =
    ground (arith, h, eq_iff text "pending_kyc")
status_value-status_of_value text {r = UserStatus.active} h =
    ground (arith, h, eq_iff text "active")
status_value-status_of_value text {r = UserStatus.suspended} h =
    ground (arith, h, eq_iff text "suspended")

-- The size of the pages that a reply is cut into: the one asked for, but at least 1 and at most 100.
pub data IsPageSize : ℕ → ℕ → Type 0 where
  least : IsPageSize 0 1
  asked : {s : ℕ} → 1 ≤ s → s ≤ 100 → IsPageSize s s
  most : {s : ℕ} → 100 < s → IsPageSize s 100

-- A page of a list, with its number and size as they were asked for: the rows that the query wants,
-- in order, cut into pages, of which this is the one with that number, and their count. Page 0 is
-- page 1.
pub record IsPage ⦃env : Env⦄ (f : Filters) (page s : ℕ) (users : List User) (reply : UserList)
    : Type 0 where
  pub size : ℕ
  pub cut : IsPageSize s size
  pub all : List User
  pub listing : IsListing f users all
  pub here : List User
  pub slice : IsSlice ((page - 1) * size) size all here
  pub rows : reply.rows ≡ payloads here
  pub counted : reply.pagination.total_items ≡ length all
  pub numbered : reply.pagination.page ≡ page
  pub sized : reply.pagination.page_size ≡ s

-- A filter that is absent, or that names a value.
pub data IsKnown {A : Type 0} (value : A → String) : Option String → Type 0 where
  not_given : IsKnown value none
  named : (a : A) → IsKnown value (some (value a))

-- A filter that names no value.
pub data IsUnknown {A : Type 0} (value : A → String) : Option String → Type 0 where
  misspelt : {text : String} → ((a : A) → value a ≢ text) → IsUnknown value (some text)

-- What a list replies, with the reason.
pub data IsListReply ⦃env : Env⦄ (f : Filters) (page s : ℕ) (users : List User)
    : Result UserList → Type 0 where
  role_refused :
      IsUnknown role_value f.role
      → IsListReply f page s users (
          refusal 422 invalid_role
            (field_accepted "role" ("user" ∷ "driver" ∷ "merchant" ∷ "admin" ∷ [])))
  status_refused :
      IsKnown role_value f.role
      → IsUnknown status_value f.status
      → IsListReply f page s users (
          refusal 422 invalid_status (
            field_accepted "status"
              ("pending_verification" ∷ "pending_kyc" ∷ "active" ∷ "suspended" ∷ [])))
  listed :
      IsKnown role_value f.role
      → IsKnown status_value f.status
      → {reply : UserList} → IsPage f page s users reply
      → IsListReply f page s users (ok reply)

is_unknown_role-IsKnown : (o : Option String) → is_unknown_role o ≡ false → IsKnown role_value o
unfolding role_of_value role_value
is_unknown_role-IsKnown none h = not_given
is_unknown_role-IsKnown (some text) h = elim (Option-cases (role_of_value text)) [
  | inl e ↦ absurd (ground (arith, h, e))
  | inr (r, e) ↦
      subst (λ x. IsKnown role_value (some x)) (role_value-role_of_value text e) (named r)
]

is_unknown_status-IsKnown :
    (o : Option String) → is_unknown_status o ≡ false → IsKnown status_value o
is_unknown_status-IsKnown none h = not_given
is_unknown_status-IsKnown (some text) h = elim (Option-cases (status_of_value text)) [
  | inl e ↦ absurd (ground (arith, h, e))
  | inr (r, e) ↦
      subst (λ x. IsKnown status_value (some x)) (status_value-status_of_value text e) (named r)
]

is_unknown_role-IsUnknown : (o : Option String) → is_unknown_role o ≡ true → IsUnknown role_value o
is_unknown_role-IsUnknown none h = absurd (ground (arith, h))
is_unknown_role-IsUnknown (some text) h =
    misspelt (λ r e. absurd (ground (arith, h, ap role_of_value e, role_of_value-role_value r)))

is_unknown_status-IsUnknown :
    (o : Option String) → is_unknown_status o ≡ true → IsUnknown status_value o
is_unknown_status-IsUnknown none h = absurd (ground (arith, h))
is_unknown_status-IsUnknown (some text) h =
    misspelt
      (λ r e. absurd (ground (arith, h, ap status_of_value e, status_of_value-status_value r)))

clamp_page_size-IsPageSize : (s : ℕ) → IsPageSize s (clamp_page_size s)
clamp_page_size-IsPageSize s = elim (Bool-cases (s == 0)) [
  | inl e ↦
      let z : s ≡ 0 = ground (arith, e) in
      subst (λ n. IsPageSize n (clamp_page_size n)) (sym z) least
  | inr n ↦ elim (Bool-cases (ltb max_page_size s)) [
    | inl e ↦
        let c : clamp_page_size s ≡ 100 = ground (arith, n, e) in
        subst (IsPageSize s) (sym c) (most (ground (arith, e)))
    | inr e ↦
        let c : clamp_page_size s ≡ s = ground (arith, n, e) in
        subst (IsPageSize s) (sym c) (asked (ground (arith, n)) (ground (arith, e)))
  ]
]

page_of-IsSlice :
    (page size : ℕ) (xs : List User)
    → IsSlice ((page - 1) * size) size xs (page_of (clamp_page page) size xs)
unfolding page_of
page_of-IsSlice page size xs =
    let e : clamp_page page - 1 ≡ page - 1 = ground arith in
    subst (λ k. IsSlice (k * size) size xs (page_of (clamp_page page) size xs)) e
      (take-IsSlice ((clamp_page page - 1) * size) size xs)

module _ ⦃env : Env⦄ (f : Filters) (page s : ℕ) (w : World) where
  -- The reply to a list, on every branch: 422 INVALID_ROLE with the accepted roles for a filter
  -- that names no role, then 422 INVALID_STATUS with the accepted statuses for one that names no
  -- status, and else a page of the list of the rows that have the role and the status asked for,
  -- a pending request if those are asked for, and a creation at or after created_since. That list
  -- has each such row of the table as often as the table, oldest first if created_since is given
  -- and else newest first, rows of one instant by id in the same direction. The page is the one
  -- with the number asked for (page 0 is page 1), of the size asked for but at least 1 and at
  -- most 100 rows, with the count of the whole list. The list changes nothing.
  pub list_users-IsListReply :
      IsListReply f page s w.db.users (list_users f page s w).0 × ((list_users f page s w).1 ≡ w)
  unfolding list_users
  list_users-IsListReply = elim (Bool-cases (is_unknown_role f.role)) [
    | inl e ↦ rw e (role_refused (is_unknown_role-IsUnknown f.role e), refl)
    | inr e ↦ elim (Bool-cases (is_unknown_status f.status)) [
      | inl g ↦
          rw (e, g)
            (
              status_refused (is_unknown_role-IsKnown f.role e)
                  (is_unknown_status-IsUnknown f.status g),
              refl,
            )
      | inr g ↦
          rw (e, g)
            (
              listed (is_unknown_role-IsKnown f.role e) (is_unknown_status-IsKnown f.status g)
                  record {
                    size = clamp_page_size s;
                    cut = clamp_page_size-IsPageSize s;
                    all = selected f w.db.users;
                    listing = selected-IsListing f w.db.users;
                    here = page_of (clamp_page page) (clamp_page_size s) (selected f w.db.users);
                    slice = page_of-IsSlice page (clamp_page_size s) (selected f w.db.users);
                    rows = refl;
                    counted = sym (length-selected f w.db.users);
                    numbered = refl;
                    sized = refl;
                  },
              refl,
            )
    ]
  ]
