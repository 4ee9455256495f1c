-- ===== src/Prelude/Slices.antt =====
-- What slices and filters of a list hold, described by the list as a whole.
use Prim.Native.Nat.{ℕ, zero, suc, ◌+◌, ◌≤◌}
use mathlib.Core.Path.{◌≡◌, refl, ◌∙◌, ap}
use mathlib.Core.Logic.{inl, inr}
use mathlib.Core.Bool.{Bool, true, not}
use mathlib.Core.List.{List, [], ◌∷◌, ◌++◌}
use native.Mathlib.Omega.{arith}
use diddifree_id.Prelude.Tables.{count_where, Bool-cases, All, leb}
use diddifree_id.Prelude.Lists.{length, filter, take, drop, take_all, length-take, length-drop}

module _ {ℓ} {A : Type ℓ} where
  pub All-filter_where {κ} :
      (P : A → Type κ) (p : A → Bool)
      → ((x : A) → p x ≡ true → P x)
      → (xs : List A) → All P (filter p xs)
  unfolding filter
  All-filter_where P p h [] = tt
  All-filter_where P p h (x ∷ xs) = elim (Bool-cases (p x)) [
    | inl e ↦ rw e (h x e, All-filter_where P p h xs)
    | inr e ↦ rw e (All-filter_where P p h xs)
  ]

  -- The rows that a test keeps and those that it drops are all rows.
  pub count_where-split :
      (p q : A → Bool) (xs : List A)
      → count_where p (filter q xs) + count_where p (filter (λ x. not (q x)) xs) ≡ count_where p xs
  unfolding count_where filter
  count_where-split p q [] = omega arith
  count_where-split p q (x ∷ xs) = ground (arith, count_where-split p q xs)

  pub All-append_left {κ} : (P : A → Type κ) (xs ys : List A) → All P (xs ++ ys) → All P xs
  All-append_left P [] ys h = tt
  All-append_left P (x ∷ xs) ys h = (h.0, All-append_left P xs ys h.1)

  pub take-drop_all : (n : ℕ) (xs : List A) → take n xs ++ drop n xs ≡ xs
  unfolding take drop
  take-drop_all zero xs = refl
  take-drop_all (suc n) [] = refl
  take-drop_all (suc n) (x ∷ xs) = ap (λ r. x ∷ r) (take-drop_all n xs)

  length-take_fits : (n : ℕ) (xs : List A) → n ≤ length xs → length (take n xs) ≡ n
  unfolding take
  length-take_fits zero xs h = refl
  length-take_fits (suc n) [] h = absurd (omega (arith, h))
  length-take_fits (suc n) (x ∷ xs) h =
      let r = length-take_fits n xs (omega (arith, h)) in omega (arith, r)

  length-take_le : (n : ℕ) (xs : List A) → length (take n xs) ≤ length xs
  unfolding take
  length-take_le zero xs = omega arith
  length-take_le (suc n) [] = omega arith
  length-take_le (suc n) (x ∷ xs) = let r = length-take_le n xs in omega (arith, r)

  take-drop_beyond : (n k : ℕ) (xs : List A) → length xs ≤ k → take n (drop k xs) ≡ []
  take-drop_beyond n k xs h =
      empty_lem (take n (drop k xs)) (
        omega (arith, h, length-take n (drop k xs), length-drop k xs, length-take_le n (drop k xs)))
    where
      empty_lem : (ys : List A) → length ys ≤ 0 → ys ≡ []
      empty_lem [] h = refl
      empty_lem (y ∷ ys) h = absurd (omega (arith, h))

  -- The part of a list of at most so many rows, after so many: the rows end before it, or they
  -- are those before it, the part, and those after it, of which there are none unless it is full.
  pub data IsSlice (offset size : ℕ) (xs here : List A) : Type ℓ where
    beyond : length xs ≤ offset → here ≡ [] → IsSlice offset size xs here
    full :
        (before after : List A)
        → before ++ (here ++ after) ≡ xs
        → length before ≡ offset
        → length here ≡ size
        → IsSlice offset size xs here
    last :
        (before : List A)
        → before ++ here ≡ xs
        → length before ≡ offset
        → length here ≤ size
        → IsSlice offset size xs here

  pub take-IsSlice :
      (offset size : ℕ) (xs : List A) → IsSlice offset size xs (take size (drop offset xs))
  take-IsSlice offset size xs = elim (Bool-cases (leb (length xs) offset)) [
    | inl e ↦
        let h : length xs ≤ offset = ground (arith, e) in
        beyond h (take-drop_beyond size offset xs h)
    | inr e ↦
        let rest = drop offset xs in
        let place : length (take offset xs) ≡ offset =
          length-take_fits offset xs (ground (arith, e)) in
        elim (Bool-cases (leb size (length rest))) [
          | inl f ↦
              full (take offset xs) (drop size rest)
                (ap (λ r. take offset xs ++ r) (take-drop_all size rest) ∙ take-drop_all offset xs)
                place (length-take_fits size rest (ground (arith, f)))
          | inr f ↦
              let whole : take size rest ≡ rest = take_all size rest (ground (arith, f)) in
              last (take offset xs) (ap (λ r. take offset xs ++ r) whole ∙ take-drop_all offset xs)
                place (length-take size rest)
        ]
  ]
