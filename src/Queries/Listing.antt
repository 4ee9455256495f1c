-- ===== src/Queries/Listing.antt =====
-- What the list of a query holds, in which order, and what registrations do to it.
use diddifree_id.Prelude.{
  ℕ, ◌+◌, ◌≤◌, ◌<◌, ◌≡◌, refl, sym, subst, ◌∙◌, ap, Bool, true, false, not, Option, none, some,
  List, ◌++◌, All, All-map, count_where, arith,
}
use diddifree_id.Prelude.Lists.{
  length, filter, take, drop, sort_by, All-filter, All-sort_by, filter-append, sort_by-append,
  IsSorted, sort_by-IsSorted, count_where-sort_by,
}
use diddifree_id.Prelude.Slices.{
  All-filter_where, count_where-split, All-append_left, take-drop_all,
}
use diddifree_id.Domain.Entities.{User}
use diddifree_id.Platform.Environment.{Env}
use diddifree_id.Platform.Monad.{World}
use diddifree_id.Application.Payloads.{Profile}
use diddifree_id.Infra.Reads.{
  Filters, matches, selected, is_older, is_newer, order_of, instant_of, max_page_size,
}
use diddifree_id.Queries.ListUsers.{payloads, total_pages, list_users, since_filters}
use diddifree_id.Queries.Wanted.{
  IsWanted, IsInOrder, matches-IsWanted, matches-IsUnwanted, IsSorted-IsInOrder,
}
use diddifree_id.Queries.Walk.{
  walk, walk_total, pages_of, pages_of-list_users, payloads-append, remainder-take,
}

is_older_total : (u v : User) → is_older u v ≡ false → is_older v u ≡ true
unfolding is_older
is_older_total u v h = ground (arith, h)

is_older_trans : (u v x : User) → is_older u v ≡ true → is_older v x ≡ true → is_older u x ≡ true
unfolding is_older
is_older_trans u v x h k = ground (arith, h, k)

is_newer_total : (u v : User) → is_newer u v ≡ false → is_newer v u ≡ true
unfolding is_newer
is_newer_total u v h = ground (arith, h)

is_newer_trans : (u v x : User) → is_newer u v ≡ true → is_newer v x ≡ true → is_newer u x ≡ true
unfolding is_newer
is_newer_trans u v x h k = ground (arith, h, k)

sorted :
    (since : Option ℕ) (users : List User)
    → IsSorted (order_of since) (sort_by (order_of since) users)
sorted none users = sort_by-IsSorted is_newer is_newer_total is_newer_trans users
sorted (some t) users = sort_by-IsSorted is_older is_older_total is_older_trans users

-- A list that a query selects from the table: the rows that it wants, each as often as the table
-- has it, in order.
pub record IsListing (f : Filters) (users rows : List User) : Type 0 where
  pub wanted : All (IsWanted f) rows
  pub others : List User
  pub unwanted : All (λ u. ¬ IsWanted f u) others
  pub together : (p : User → Bool) → count_where p rows + count_where p others ≡ count_where p users
  pub ordered : IsInOrder f.created_since rows

pub selected-IsListing : (f : Filters) (users : List User) → IsListing f users (selected f users)
unfolding selected
selected-IsListing f users =
    let rows = filter (matches f) users in
    let before = order_of f.created_since in
    record {
      wanted =
          All-sort_by (IsWanted f) before rows
            (All-filter_where (IsWanted f) (matches f) (matches-IsWanted f) users);
      others = filter (λ u. not (matches f u)) users;
      unwanted =
          All-filter_where (λ u. ¬ IsWanted f u) (λ u. not (matches f u)) (matches-IsUnwanted f)
            users;
      together = λ p.
          ap (λ n. n + count_where p (filter (λ u. not (matches f u)) users))
            (count_where-sort_by before p rows)
          ∙ count_where-split p (matches f) users;
      ordered =
          IsSorted-IsInOrder f.created_since (sort_by before rows) (sorted f.created_since rows);
    }

-- Accounts that registered at an instant or after it stand after those from before it.
module _ (since t : ℕ) where
  first_in_order :
      (u : User) (new : List User)
      → instant_of u < t
      → All (λ r. t ≤ instant_of r) new
      → All (λ r. is_older u r ≡ true) new
  unfolding is_older
  first_in_order u new h k =
      All-map (λ r. t ≤ instant_of r) (λ r. is_older u r ≡ true) new (λ r l. ground (arith, h, l)) k

  selected_registered :
      (users new : List User)
      → All (λ u. instant_of u < t) users
      → All (λ r. t ≤ instant_of r) new
      → selected (since_filters since) (users ++ new)
        ≡ selected (since_filters since) users ++ selected (since_filters since) new
  unfolding selected
  selected_registered users new h k =
      let p = matches (since_filters since) in
      ap (sort_by is_older) (filter-append p users new)
      ∙ sort_by-append is_older (filter p users) (filter p new) (
          All-filter (λ u. All (λ r. is_older u r ≡ true) (filter p new)) p users
            (All-map (λ u. instant_of u < t) (λ u. All (λ r. is_older u r ≡ true) (filter p new))
              users (λ u l. All-filter (λ r. is_older u r ≡ true) p new (first_in_order u new l k))
              h))

-- What a walk through the pages gives: first the list of the accounts that were there, and then a
-- first part of a list of accounts that registered since.
pub record IsWalked ⦃env : Env⦄ (f : Filters) (t : ℕ) (users : List User)
    (registered : ℕ → List User) (rows : List Profile) : Type 0 where
  pub early : List User
  pub later : List User
  pub unread : List User
  pub page : ℕ
  pub read : rows ≡ payloads (early ++ later)
  pub there : IsListing f users early
  pub new : IsListing f (registered page) (later ++ unread)
  pub late : All (λ r. t ≤ instant_of r) later

module _ (since t : ℕ) where
  selected_late :
      (new : List User)
      → All (λ r. t ≤ instant_of r) new
      → All (λ r. t ≤ instant_of r) (selected (since_filters since) new)
  unfolding selected
  selected_late new h =
      All-sort_by (λ r. t ≤ instant_of r) is_older (filter (matches (since_filters since)) new)
        (All-filter (λ r. t ≤ instant_of r) (matches (since_filters since)) new h)

  module _ ⦃env : Env⦄ where
    -- A module that reads the pages of the backfill from an instant on, one after the other and
    -- as many as the first reply counts, gets first the accounts of the table at the start that
    -- were created at that instant or later, each as often as the table has it and from the
    -- oldest to the newest, and then only a first part of such a list of accounts that registered
    -- between its requests. Those that register do so at or after an instant that all others were
    -- created before, and stand behind them in the table. The page size is within the bounds of
    -- the route.
    pub walk_registered :
        (s : ℕ) (w : World) (ws : ℕ → World) (registered : ℕ → List User)
        → 1 ≤ s
        → s ≤ max_page_size
        → ((n : ℕ) → (ws n).db.users ≡ w.db.users ++ registered n)
        → All (λ u. instant_of u < t) w.db.users
        → ((n : ℕ) → All (λ r. t ≤ instant_of r) (registered n))
        → IsWalked
            (since_filters since)
            t
            w.db.users
            registered
            (walk (since_filters since) s ws (pages_of (list_users (since_filters since) 1 s w).0))
    walk_registered s w ws registered low high grown early late =
        let f = since_filters since in
        let later = λ (n : ℕ). selected f (registered n) in
        let users = selected f w.db.users in
        let q = λ (n : ℕ).
          ap (selected f) (grown n)
          ∙ selected_registered since t w.db.users (registered n) early (late n) in
        let pages = total_pages (length users) s in
        let (k, m, r) = remainder-take f s refl refl low high ws users later q pages in
        let whole : take k (later m) ++ drop k (later m) ≡ later m = take-drop_all k (later m) in
        record {
          early = users;
          later = take k (later m);
          unread = drop k (later m);
          page = m;
          read =
              ap (walk f s ws) (pages_of-list_users f s refl refl low high w)
              ∙ walk_total f s refl refl low high ws users later q
              ∙ ap (λ xs. payloads users ++ xs) r
              ∙ sym (payloads-append users (take k (later m)));
          there = selected-IsListing f w.db.users;
          new =
              subst (IsListing f (registered m)) (sym whole) (selected-IsListing f (registered m));
          late =
              All-append_left (λ x. t ≤ instant_of x) (take k (later m)) (drop k (later m))
                (subst (All (λ x. t ≤ instant_of x)) (sym whole)
                  (selected_late (registered m) (late m)));
        }
