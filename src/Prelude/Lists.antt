-- ===== src/Prelude/Lists.antt =====
-- Lists as results of queries: filtering, sorting by a test, and slices, with their lemmas.
use Prim.Native.Nat.{ℕ, zero, suc, ◌+◌, ◌-◌, ◌≤◌}
use mathlib.Core.Path.{◌≡◌, refl, ◌∙◌, ap}
use mathlib.Core.Logic.{inl, inr}
use mathlib.Core.Bool.{Bool, true, false}
use mathlib.Core.List.{List, [], ◌∷◌, ◌++◌}
use native.Mathlib.Omega.{arith}
use diddifree_id.Prelude.Tables.{if◌then◌else◌, count_where, Bool-cases, All, All-map}

abbrev pub length {ℓ} : {A : Type ℓ} → List A → ℕ
length [] = 0
length (x ∷ xs) = suc (length xs)

module _ {ℓ} {A : Type ℓ} where
  -- `WHERE p`
  unfoldable pub filter : (A → Bool) → List A → List A
  filter p [] = []
  filter p (x ∷ xs) = let rest = filter p xs in if p x then x ∷ rest else rest

  -- `LIMIT n` and `OFFSET n`
  unfoldable pub take : ℕ → List A → List A
  take zero xs = []
  take (suc n) [] = []
  take (suc n) (x ∷ xs) = x ∷ take n xs

  unfoldable pub drop : ℕ → List A → List A
  drop zero xs = xs
  drop (suc n) [] = []
  drop (suc n) (x ∷ xs) = drop n xs

  -- `ORDER BY`, where `before` says which of two rows comes first.
  unfoldable pub insert_by : (A → A → Bool) → A → List A → List A
  insert_by before x [] = x ∷ []
  insert_by before x (y ∷ ys) =
      let later = insert_by before x ys in if before x y then x ∷ y ∷ ys else y ∷ later

  unfoldable pub sort_by : (A → A → Bool) → List A → List A
  unfolding insert_by
  sort_by before [] = []
  sort_by before (x ∷ xs) = insert_by before x (sort_by before xs)

  pub length-take : (n : ℕ) (xs : List A) → length (take n xs) ≤ n
  unfolding take
  length-take zero xs = ground arith
  length-take (suc n) [] = ground arith
  length-take (suc n) (x ∷ xs) = ground (arith, length-take n xs)

  pub take_none : (n : ℕ) → take n [] ≡ []
  unfolding take
  take_none zero = refl
  take_none (suc n) = refl

  -- A slice and the slice after it are one slice.
  pub take-drop : (a b : ℕ) (xs : List A) → take a xs ++ take b (drop a xs) ≡ take (a + b) xs
  unfolding take drop
  take-drop zero b xs = let e : 0 + b ≡ b = omega arith in rw e refl
  take-drop (suc a) b [] = let e : suc a + b ≡ suc (a + b) = omega arith in rw e (take_none b)
  take-drop (suc a) b (x ∷ xs) =
      let e : suc a + b ≡ suc (a + b) = omega arith in rw e (ap (λ r. x ∷ r) (take-drop a b xs))

  pub take_all : (n : ℕ) (xs : List A) → length xs ≤ n → take n xs ≡ xs
  unfolding take
  take_all zero [] h = refl
  take_all zero (x ∷ xs) h = absurd (omega (arith, h))
  take_all (suc n) [] h = refl
  take_all (suc n) (x ∷ xs) h = ap (λ r. x ∷ r) (take_all n xs (omega (arith, h)))

  -- A slice of two lists, from a place in the first.
  take-append : (n : ℕ) (xs ys : List A) → take n (xs ++ ys) ≡ take n xs ++ take (n - length xs) ys
  unfolding take
  take-append zero xs ys = let e : 0 - length xs ≡ 0 = omega arith in rw e refl
  take-append (suc n) [] ys = let e : suc n - 0 ≡ suc n = omega arith in rw e refl
  take-append (suc n) (x ∷ xs) ys =
      let e : suc n - suc (length xs) ≡ n - length xs = omega arith in
      rw e (ap (λ r. x ∷ r) (take-append n xs ys))

  drop-append : (n : ℕ) (xs ys : List A) → n ≤ length xs → drop n (xs ++ ys) ≡ drop n xs ++ ys
  unfolding drop
  drop-append zero xs ys h = refl
  drop-append (suc n) [] ys h = absurd (omega (arith, h))
  drop-append (suc n) (x ∷ xs) ys h = drop-append n xs ys (omega (arith, h))

  pub slice-append :
      (d n : ℕ) (xs ys : List A)
      → d ≤ length xs
      → take n (drop d (xs ++ ys)) ≡ take n (drop d xs) ++ take (n - length (drop d xs)) ys
  slice-append d n xs ys h = ap (take n) (drop-append d xs ys h) ∙ take-append n (drop d xs) ys

  pub length-drop : (n : ℕ) (xs : List A) → length (drop n xs) ≡ length xs - n
  unfolding drop
  length-drop zero xs = omega arith
  length-drop (suc n) [] = omega arith
  length-drop (suc n) (x ∷ xs) = ground (arith, length-drop n xs)

  module _ (before : A → A → Bool) where
    length-insert_by : (x : A) (xs : List A) → length (insert_by before x xs) ≡ suc (length xs)
    unfolding insert_by
    length-insert_by x [] = refl
    length-insert_by x (y ∷ ys) = ground (arith, length-insert_by x ys)

    pub length-sort_by : (xs : List A) → length (sort_by before xs) ≡ length xs
    unfolding sort_by
    length-sort_by [] = refl
    length-sort_by (x ∷ xs) = length-insert_by x (sort_by before xs) ∙ ap suc (length-sort_by xs)

    count_where-insert_by :
        (p : A → Bool) (x : A) (xs : List A)
        → count_where p (insert_by before x xs) ≡ count_where p (x ∷ xs)
    unfolding insert_by count_where
    count_where-insert_by p x [] = refl
    count_where-insert_by p x (y ∷ ys) = ground (arith, count_where-insert_by p x ys)

    -- Sorting changes no count.
    pub count_where-sort_by :
        (p : A → Bool) (xs : List A) → count_where p (sort_by before xs) ≡ count_where p xs
    unfolding sort_by count_where
    count_where-sort_by p [] = refl
    count_where-sort_by p (x ∷ xs) =
        ground (arith, count_where-insert_by p x (sort_by before xs), count_where-sort_by p xs)

  -- What a count says of a filtered list.
  pub count_where-filter :
      (p q : A → Bool) (xs : List A)
      → count_where p (filter q xs) ≡ count_where (λ x. if q x then p x else false) xs
  unfolding count_where filter
  count_where-filter p q [] = refl
  count_where-filter p q (x ∷ xs) = ground (arith, count_where-filter p q xs)

  -- What holds of all rows holds of those that are left, in any order.
  module _ {κ} (P : A → Type κ) where
    pub All-filter : (p : A → Bool) (xs : List A) → All P xs → All P (filter p xs)
    unfolding filter
    All-filter p [] h = tt
    All-filter p (x ∷ xs) h = elim (Bool-cases (p x)) [
      | inl e ↦ rw e (h.0, All-filter p xs h.1)
      | inr e ↦ rw e (All-filter p xs h.1)
    ]

    All-insert_by :
        (before : A → A → Bool) (x : A) (xs : List A)
        → P x
        → All P xs
        → All P (insert_by before x xs)
    unfolding insert_by
    All-insert_by before x [] h hs = (h, tt)
    All-insert_by before x (y ∷ ys) h hs = elim (Bool-cases (before x y)) [
      | inl e ↦ rw e (h, hs)
      | inr e ↦ rw e (hs.0, All-insert_by before x ys h hs.1)
    ]

    pub All-sort_by : (before : A → A → Bool) (xs : List A) → All P xs → All P (sort_by before xs)
    unfolding sort_by
    All-sort_by before [] h = tt
    All-sort_by before (x ∷ xs) h =
        All-insert_by before x (sort_by before xs) h.0 (All-sort_by before xs h.1)

  pub filter-append :
      (p : A → Bool) (xs ys : List A) → filter p (xs ++ ys) ≡ filter p xs ++ filter p ys
  unfolding filter
  filter-append p [] ys = refl
  filter-append p (x ∷ xs) ys = ground (arith, filter-append p xs ys)

  module _ (before : A → A → Bool) where
    -- A row that comes before all of a second list.
    insert_by-append :
        (x : A) (xs ys : List A)
        → All (λ y. before x y ≡ true) ys
        → insert_by before x (xs ++ ys) ≡ insert_by before x xs ++ ys
    unfolding insert_by
    insert_by-append x [] [] h = refl
    insert_by-append x [] (y ∷ ys) h = rw h.0 refl
    insert_by-append x (z ∷ zs) ys h = ground (arith, insert_by-append x zs ys h)

    -- Rows that all come before those of a second list.
    pub sort_by-append :
        (xs ys : List A)
        → All (λ x. All (λ y. before x y ≡ true) ys) xs
        → sort_by before (xs ++ ys) ≡ sort_by before xs ++ sort_by before ys
    unfolding sort_by
    sort_by-append [] ys h = refl
    sort_by-append (x ∷ xs) ys h =
        ap (insert_by before x) (sort_by-append xs ys h.1)
        ∙ insert_by-append x (sort_by before xs) (sort_by before ys)
            (All-sort_by (λ y. before x y ≡ true) before ys h.0)

    -- Each row of a list beside the next one.
    abbrev pub IsSorted : List A → Type 0
    IsSorted [] = Unit
    IsSorted (x ∷ xs) = All (λ y. before x y ≡ true) xs × IsSorted xs

    module _ (total : (x y : A) → before x y ≡ false → before y x ≡ true)
        (trans : (x y z : A) → before x y ≡ true → before y z ≡ true → before x z ≡ true) where
      insert_by-IsSorted : (x : A) (xs : List A) → IsSorted xs → IsSorted (insert_by before x xs)
      unfolding insert_by
      insert_by-IsSorted x [] h = (tt, tt)
      insert_by-IsSorted x (y ∷ ys) h = elim (Bool-cases (before x y)) [
        | inl e ↦ rw e (
          (
            e,
            All-map (λ z. before y z ≡ true) (λ z. before x z ≡ true) ys (λ z. trans x y z e) h.0,
          ),
          h,
        )
        | inr e ↦ rw e (
          All-insert_by (λ z. before y z ≡ true) before x ys (total x y e) h.0,
          insert_by-IsSorted x ys h.1,
        )
      ]

      pub sort_by-IsSorted : (xs : List A) → IsSorted (sort_by before xs)
      unfolding sort_by
      sort_by-IsSorted [] = tt
      sort_by-IsSorted (x ∷ xs) = insert_by-IsSorted x (sort_by before xs) (sort_by-IsSorted xs)
