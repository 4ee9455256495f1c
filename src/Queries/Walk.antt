-- ===== src/Queries/Walk.antt =====
-- A client that asks for the pages of a list one after the other.
use diddifree_id.Prelude.{
  ℕ, zero, suc, ◌+◌, ◌-◌, ◌*◌, ◌/◌, ◌≤◌, ◌<◌, ◌≡◌, refl, sym, ◌∙◌, ap, false, List, [], ◌∷◌, ◌++◌,
  ◌==◌, arith,
}
use mathlib.Core.List.{append-nil, append_assoc}
use native.Mathlib.Nat.{mod-add-div', mod-lt, mul-le-mul_right}
use diddifree_id.Prelude.Lists.{
  length, filter, take, drop, take_none, take-drop, take_all, length-sort_by, length-drop,
  slice-append,
}
use diddifree_id.Domain.Entities.{User}
use diddifree_id.Platform.Environment.{Env}
use diddifree_id.Platform.Monad.{World, Result, ok, err}
use diddifree_id.Application.Payloads.{Profile}
use diddifree_id.Infra.Reads.{
  Filters, matches, selected, page_of, clamp_page, clamp_page_size, max_page_size,
}
use diddifree_id.Queries.ListUsers.{
  UserList, is_unknown_role, is_unknown_status, total_pages, payloads, list_users,
}

abbrev pub pages_of : Result UserList → ℕ
pages_of (ok reply) = reply.pagination.total_pages
pages_of (err e) = 0

abbrev pub rows_of : Result UserList → List Profile
rows_of (ok reply) = reply.rows
rows_of (err e) = []

module _ ⦃env : Env⦄ where
  -- The rows of the pages 1 to `n`, where `ws` are the states that the requests find.
  unfoldable pub walk : Filters → ℕ → (ℕ → World) → ℕ → List Profile
  walk f page_size ws zero = []
  walk f page_size ws (suc n) =
      walk f page_size ws n ++ rows_of (list_users f (suc n) page_size (ws (suc n))).0

  pub payloads-append : (xs ys : List User) → payloads (xs ++ ys) ≡ payloads xs ++ payloads ys
  unfolding payloads
  payloads-append [] ys = refl
  payloads-append (x ∷ xs) ys = ground (arith, payloads-append xs ys)

  payloads_none : (users : List User) → length users ≤ 0 → payloads users ≡ []
  unfolding payloads
  payloads_none [] h = refl
  payloads_none (u ∷ us) h = absurd (omega (arith, h))

pub length-selected :
    (f : Filters) (users : List User)
    → length (selected f users) ≡ length (filter (matches f) users)
unfolding selected
length-selected f users = length-sort_by _ (filter (matches f) users)

-- The pages are enough, and the last one is not empty.
total_pages_enough : (total s : ℕ) → 1 ≤ s → total ≤ total_pages total s * s
unfolding total_pages
total_pages_enough total s h =
    let a = total + (s - 1) in
    let b : (s == 0) ≡ false = ground (arith, h) in
    rw b (omega (arith, h, mod-add-div' a s, mod-lt a {m = s} (omega (arith, h))))

total_pages_tight : (total s n : ℕ) → 1 ≤ s → n < total_pages total s → n * s < total
unfolding total_pages
total_pages_tight total s n h l =
    let a = total + (s - 1) in
    let b : (s == 0) ≡ false = ground (arith, h) in
    let l' : suc n ≤ a / s = ground (arith, b, l) in
    let m : suc n * s ≤ a / s * s = mul-le-mul_right s l' in omega (arith, h, m, mod-add-div' a s)

module _ ⦃env : Env⦄ (f : Filters) (s : ℕ) (role_known : is_unknown_role f.role ≡ false)
    (status_known : is_unknown_status f.status ≡ false) (low : 1 ≤ s)
    (high : s ≤ max_page_size) where
  rows-list_users :
      (n : ℕ) (w : World)
      → rows_of (list_users f (suc n) s w).0
        ≡ payloads (take s (drop (n * s) (selected f w.db.users)))
  unfolding list_users page_of
  rows-list_users n w =
      let a : clamp_page (suc n) - 1 ≡ n = ground arith in
      let b : clamp_page_size s ≡ s = ground (arith, low, high) in
      ground (arith, role_known, status_known, a, b)

  module _ (ws : ℕ → World) (users : List User) (later : ℕ → List User)
      (grown : (n : ℕ) → selected f (ws n).db.users ≡ users ++ later n) where
    page_later : ℕ → List User
    page_later n = take (s - length (drop (n * s) users)) (later (suc n))

    next_page :
        (n : ℕ)
        → n * s ≤ length users
        → rows_of (list_users f (suc n) s (ws (suc n))).0
          ≡ payloads (take s (drop (n * s) users)) ++ payloads (page_later n)
    unfolding page_later
    next_page n h =
        rows-list_users n (ws (suc n))
        ∙ ap (λ xs. payloads (take s (drop (n * s) xs))) (grown (suc n))
        ∙ ap payloads (slice-append (n * s) s users (later (suc n)) h)
        ∙ payloads-append (take s (drop (n * s) users)) (page_later n)

    full_page :
        (n : ℕ)
        → n * s + s ≤ length users
        → rows_of (list_users f (suc n) s (ws (suc n))).0 ≡ payloads (take s (drop (n * s) users))
    unfolding page_later payloads take
    full_page n fits =
        let full : s - length (drop (n * s) users) ≡ 0 =
          omega (arith, fits, length-drop (n * s) users) in
        next_page n (omega (arith, fits))
        ∙ ap (λ k. payloads (take s (drop (n * s) users)) ++ payloads (take k (later (suc n)))) full
        ∙ append-nil (payloads (take s (drop (n * s) users)))

    walk-take : (n : ℕ) → n * s ≤ length users → walk f s ws n ≡ payloads (take (n * s) users)
    unfolding walk payloads take
    walk-take zero h = let e : 0 * s ≡ 0 = omega arith in rw e refl
    walk-take (suc n) h =
        let fits : n * s + s ≤ length users = omega (arith, h) in
        let e : suc n * s ≡ n * s + s = omega arith in
        rw e (
          ap (λ r. r ++ rows_of (list_users f (suc n) s (ws (suc n))).0)
            (walk-take n (omega (arith, fits)))
          ∙ ap (λ r. payloads (take (n * s) users) ++ r) (full_page n fits)
          ∙ sym (payloads-append (take (n * s) users) (take s (drop (n * s) users)))
          ∙ ap payloads (take-drop (n * s) s users))

    -- What the last page has of the later rows.
    pub remainder : ℕ → List Profile
    unfolding page_later
    remainder zero = []
    remainder (suc n) = payloads (page_later n)

    pub remainder-take : (n : ℕ) → (k : ℕ) × (m : ℕ) × (remainder n ≡ payloads (take k (later m)))
    unfolding remainder page_later take payloads
    remainder-take zero = (0, 0, refl)
    remainder-take (suc n) = (s - length (drop (n * s) users), suc n, refl)

    -- All the pages, up to the last one with rows of the first list.
    walk-all :
        (n : ℕ)
        → length users ≤ n * s
        → ((k : ℕ) → k < n → k * s < length users)
        → walk f s ws n ≡ payloads users ++ remainder n
    unfolding walk payloads remainder
    walk-all zero h tight =
        sym (append-nil (payloads users) ∙ payloads_none users (omega (arith, h)))
    walk-all (suc n) h tight =
        let here : n * s ≤ length users = omega (arith, tight n (omega arith)) in
        let e : suc n * s ≡ n * s + s = omega arith in
        let whole : take (n * s + s) users ≡ users =
          take_all (n * s + s) users (omega (arith, h, e)) in
        ap (λ r. r ++ rows_of (list_users f (suc n) s (ws (suc n))).0) (walk-take n here)
        ∙ ap (λ r. payloads (take (n * s) users) ++ r) (next_page n here)
        ∙ sym (
            append_assoc (payloads (take (n * s) users)) (payloads (take s (drop (n * s) users)))
              (payloads (page_later n)))
        ∙ ap (λ r. r ++ payloads (page_later n))
            (sym (payloads-append (take (n * s) users) (take s (drop (n * s) users)))
              ∙ ap payloads (take-drop (n * s) s users ∙ whole))

    -- As many pages as are needed for the first list.
    pub walk_total :
        walk f s ws (total_pages (length users) s)
        ≡ payloads users ++ remainder (total_pages (length users) s)
    walk_total =
        walk-all (total_pages (length users) s) (total_pages_enough (length users) s low)
          (λ k l. total_pages_tight (length users) s k low l)

  -- The number of pages that the first reply gives.
  pub pages_of-list_users :
      (w : World) → pages_of (list_users f 1 s w).0 ≡ total_pages (length (selected f w.db.users)) s
  unfolding list_users
  pages_of-list_users w = ground (arith, role_known, status_known, length-selected f w.db.users)

  remainder_none :
      (w : World) (n : ℕ)
      → remainder
          (λ _. w)
          (selected f w.db.users)
          (λ _. [])
          (λ _. sym (append-nil (selected f w.db.users)))
          n
        ≡ []
  unfolding remainder page_later take payloads
  remainder_none w zero = refl
  remainder_none w (suc n) =
      ap payloads (take_none (s - length (drop (n * s) (selected f w.db.users))))

  -- The pages of a list, read one after the other from tables that stay as they are, as many as
  -- the first reply counts, are together the whole list in its order. The filters name a role and
  -- a status that exist, if any, and the page size is within the bounds of the route.
  pub walk_unchanged :
      (w : World)
      → walk f s (λ _. w) (pages_of (list_users f 1 s w).0) ≡ payloads (selected f w.db.users)
  walk_unchanged w =
      let users = selected f w.db.users in
      let same = λ (n : ℕ). sym (append-nil users) in
      let n = total_pages (length users) s in
      ap (walk f s (λ _. w)) (pages_of-list_users w)
      ∙ walk_total (λ _. w) users (λ _. []) same
      ∙ ap (λ r. payloads users ++ r) (remainder_none w n)
      ∙ append-nil (payloads users)
