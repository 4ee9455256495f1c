-- ===== src/Prelude/Tables.antt =====
-- Boolean tests, and the statements of SQL that the repositories issue, on a table that is the
-- list of its rows in order of insertion.
use Prim.Native.Nat.{ℕ, suc, compare, Ordering}
use mathlib.Core.Path.{◌≡◌, refl, subst}
use mathlib.Core.Logic.{◌⊎◌, inl, inr}
use mathlib.Core.Bool.{Bool, true, false}
use mathlib.Core.Option.{Option, none, some}
use mathlib.Core.List.{List, [], ◌∷◌, ◌++◌}
use native.Mathlib.Omega.{arith}

abbrev pub ltb : ℕ → ℕ → Bool
ltb a b = elim (compare a b) [ Ordering.lt ↦ true | _ ↦ false ]

abbrev pub leb : ℕ → ℕ → Bool
leb a b = elim (compare a b) [ Ordering.gt ↦ false | _ ↦ true ]

infix 50 ◌==◌
abbrev pub ◌==◌ : ℕ → ℕ → Bool
a == b = elim (compare a b) [ Ordering.eq ↦ true | _ ↦ false ]

infix 1 if◌then◌else◌
abbrev pub if◌then◌else◌ {ℓ} : {A : Type ℓ} → Bool → A → A → A
if true then x else y = x
if false then x else y = y

pub Bool-cases : (b : Bool) → (b ≡ true) ⊎ (b ≡ false)
Bool-cases true = inl refl
Bool-cases false = inr refl

abbrev pub is_some {ℓ} : {A : Type ℓ} → Option A → Bool
is_some none = false
is_some (some a) = true

pub Option-cases {ℓ} : {A : Type ℓ} (o : Option A) → (o ≡ none) ⊎ ((a : A) × (o ≡ some a))
Option-cases none = inl refl
Option-cases (some a) = inr (a, refl)

-- Python's `a or b` on an optional value.
abbrev pub or_else {ℓ} : {A : Type ℓ} → Option A → A → A
or_else none b = b
or_else (some a) b = a

abbrev pub All {ℓ κ} : {A : Type ℓ} → (A → Type κ) → List A → Type κ
All P [] = Unit
All P (x ∷ xs) = P x × All P xs

module _ {ℓ} {A : Type ℓ} where
  -- `SELECT ... WHERE p`, of which one row is read.
  unfoldable pub find_first : (A → Bool) → List A → Option A
  find_first p [] = none
  find_first p (x ∷ xs) = if p x then some x else find_first p xs

  -- `UPDATE ... SET f WHERE p`.
  unfoldable pub update_where : (A → Bool) → (A → A) → List A → List A
  update_where p f [] = []
  update_where p f (x ∷ xs) = (if p x then f x else x) ∷ update_where p f xs

  -- The number of rows that `UPDATE ... WHERE p` matches.
  unfoldable pub count_where : (A → Bool) → List A → ℕ
  count_where p [] = 0
  count_where p (x ∷ xs) = let rest = count_where p xs in if p x then suc rest else rest

  pub find_first-holds :
      (p : A → Bool) (xs : List A) {a : A} → find_first p xs ≡ some a → p a ≡ true
  unfolding find_first
  find_first-holds p [] {a} h = ground arith
  find_first-holds p (x ∷ xs) {a} h = elim (Bool-cases (p x)) [
    | inl hit ↦ ground arith
    | inr miss ↦ find_first-holds p xs (ground arith)
  ]

  found_head :
      (p : A → Bool) (x : A) (xs : List A) {a : A}
      → p x ≡ true
      → find_first p (x ∷ xs) ≡ some a
      → x ≡ a
  unfolding find_first
  found_head p x xs hit h = ground arith

  abbrev pub map_option : (A → A) → Option A → Option A
  map_option f none = none
  map_option f (some a) = some (f a)

  -- A row as an `UPDATE` leaves it.
  abbrev pub apply_if : (A → Bool) → (A → A) → A → A
  apply_if p f a = if p a then f a else a

  pub find_first-update_where :
      (q p : A → Bool) (f : A → A) (xs : List A)
      → ((a : A) → q (f a) ≡ q a)
      → find_first q (update_where p f xs) ≡ map_option (apply_if p f) (find_first q xs)
  unfolding find_first update_where
  find_first-update_where q p f [] keep = refl
  find_first-update_where q p f (x ∷ xs) keep =
      ground (arith, keep x, find_first-update_where q p f xs keep)

  pub find_first-append_one :
      (q : A → Bool) (xs : List A) (x : A)
      → find_first q (xs ++ x ∷ [])
        ≡ (if is_some (find_first q xs) then find_first q xs else if q x then some x else none)
  unfolding find_first
  find_first-append_one q [] x = refl
  find_first-append_one q (y ∷ ys) x = ground (arith, find_first-append_one q ys x)

module _ {ℓ κ} {A : Type ℓ} (P : A → Type κ) where
  pub All-append_one : (xs : List A) (x : A) → All P xs → P x → All P (xs ++ x ∷ [])
  All-append_one [] x hs h = (h, tt)
  All-append_one (y ∷ ys) x hs h = (hs.0, All-append_one ys x hs.1 h)

  pub All-find : (p : A → Bool) (xs : List A) {a : A} → All P xs → find_first p xs ≡ some a → P a
  unfolding find_first
  All-find p [] {a} hs h = absurd (ground arith)
  All-find p (x ∷ xs) {a} hs h = elim (Bool-cases (p x)) [
    | inl hit ↦ subst P (found_head p x xs hit h) hs.0
    | inr miss ↦ All-find p xs hs.1 (ground arith)
  ]

module _ {ℓ κ} {A : Type ℓ} (P Q : A → Type κ) where
  pub All-map : (xs : List A) → ((a : A) → P a → Q a) → All P xs → All Q xs
  All-map [] f hs = tt
  All-map (x ∷ xs) f hs = (f x hs.0, All-map xs f hs.1)

  -- What an `UPDATE` keeps: the rows that it changes, and those that it leaves.
  pub All-update_where :
      (p : A → Bool) (f : A → A) (xs : List A)
      → ((a : A) → p a ≡ true → P a → Q (f a))
      → ((a : A) → p a ≡ false → P a → Q a)
      → All P xs
      → All Q (update_where p f xs)
  unfolding update_where
  All-update_where p f [] hit miss hs = tt
  All-update_where p f (x ∷ xs) hit miss hs = elim (Bool-cases (p x)) [
    | inl e ↦ rw e (hit x e hs.0, All-update_where p f xs hit miss hs.1)
    | inr e ↦ rw e (miss x e hs.0, All-update_where p f xs hit miss hs.1)
  ]
