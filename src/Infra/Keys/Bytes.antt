-- ===== src/Infra/Keys/Bytes.antt =====
-- The numbers of a public key, as bytes.
use diddifree_id.Prelude.{
  Bool, not, subst, String, ℕ, zero, suc, ◌+◌, ◌*◌, ◌/◌, ◌%◌, ◌≤◌, ◌<◌, ◌≡◌, ◌≢◌, refl, sym, ◌∙◌,
  ap, true, List, [], ◌∷◌, ◌++◌, ◌==◌, arith, All, All-append_one, Bool-cases, inl, inr,
}
use diddifree_id.Platform.Environment.{Env}
use diddifree_id.Infra.Keys.{to_bytes, b64url_uint}

-- The number that bytes stand for, the most significant one first.
abbrev from_bytes_after : ℕ → List ℕ → ℕ
from_bytes_after acc [] = acc
from_bytes_after acc (b ∷ bs) = from_bytes_after (acc * 256 + b) bs

abbrev pub from_bytes : List ℕ → ℕ
from_bytes = from_bytes_after 0

from_bytes-append_one :
    (bs : List ℕ) (acc b : ℕ)
    → from_bytes_after acc (bs ++ b ∷ []) ≡ from_bytes_after acc bs * 256 + b
from_bytes-append_one [] acc b = refl
from_bytes-append_one (c ∷ bs) acc b = from_bytes-append_one bs (acc * 256 + c) b

from_bytes-to_bytes_fuel : (fuel n : ℕ) → n ≤ fuel → from_bytes (to_bytes fuel n) ≡ n
unfolding to_bytes
from_bytes-to_bytes_fuel zero n h = omega arith
from_bytes-to_bytes_fuel (suc fuel) n h = elim (Bool-cases (n == 0)) [
  | inl e ↦ ground (arith, e)
  | inr e ↦ ground (
    arith,
    e,
    from_bytes-append_one (to_bytes fuel (n / 256)) 0 (n % 256),
    from_bytes-to_bytes_fuel fuel (n / 256) (ground arith),
  )
]

pub from_bytes-to_bytes : (n : ℕ) → from_bytes (to_bytes n n) ≡ n
from_bytes-to_bytes n = from_bytes-to_bytes_fuel n n (omega arith)

to_bytes-lt_fuel : (fuel n : ℕ) → All (λ b. b < 256) (to_bytes fuel n)
unfolding to_bytes
to_bytes-lt_fuel zero n = tt
to_bytes-lt_fuel (suc fuel) n = elim (Bool-cases (n == 0)) [
  | inl e ↦
      let q : to_bytes (suc fuel) n ≡ [] = ground (arith, e) in
      subst (All (λ b. b < 256)) (sym q) tt
  | inr e ↦
      let q : to_bytes (suc fuel) n ≡ to_bytes fuel (n / 256) ++ (n % 256) ∷ [] =
        ground (arith, e) in
      subst (All (λ b. b < 256)) (sym q) (
        All-append_one (λ b. b < 256) (to_bytes fuel (n / 256)) (n % 256)
          (to_bytes-lt_fuel fuel (n / 256)) (omega arith))
]

-- No byte at the front is spare.
abbrev pub is_minimal : List ℕ → Bool
is_minimal [] = true
is_minimal (b ∷ bs) = not (b == 0)

is_minimal-append_one :
    (bs : List ℕ) (b : ℕ)
    → is_minimal bs ≡ true
    → (from_bytes bs + b) ≢ 0
    → is_minimal (bs ++ b ∷ []) ≡ true
is_minimal-append_one [] b h ne = ground (arith, ne)
is_minimal-append_one (c ∷ bs) b h ne = h

is_minimal-to_bytes_fuel : (fuel n : ℕ) → n ≤ fuel → is_minimal (to_bytes fuel n) ≡ true
unfolding to_bytes
is_minimal-to_bytes_fuel zero n h = refl
is_minimal-to_bytes_fuel (suc fuel) n h = elim (Bool-cases (n == 0)) [
  | inl e ↦ ground (arith, e)
  | inr e ↦
      let q : to_bytes (suc fuel) n ≡ to_bytes fuel (n / 256) ++ (n % 256) ∷ [] =
        ground (arith, e) in
      let v = from_bytes-to_bytes_fuel fuel (n / 256) (ground arith) in
      subst (λ bs. is_minimal bs ≡ true) (sym q)
        (is_minimal-append_one (to_bytes fuel (n / 256)) (n % 256)
          (is_minimal-to_bytes_fuel fuel (n / 256) (ground arith)) (λ z. ground (arith, e, v, z)))
]

-- The bytes of a number, the most significant one first, stand for that number, each is below
-- 256, and the first one is not zero.
pub to_bytes_lem :
    (n : ℕ)
    → (from_bytes (to_bytes n n) ≡ n)
      × (All (λ b. b < 256) (to_bytes n n) × (is_minimal (to_bytes n n) ≡ true))
to_bytes_lem n =
    (from_bytes-to_bytes n, (to_bytes-lt_fuel n n, is_minimal-to_bytes_fuel n n (omega arith)))

-- Two numbers that are published as one text are one number.
b64url_uint-injective :
    ⦃env : Env⦄ (decode : String → List ℕ)
    → ((bytes : List ℕ) → All (λ b. b < 256) bytes → decode (env.b64url bytes) ≡ bytes)
    → (m n : ℕ) → b64url_uint m ≡ b64url_uint n
    → m ≡ n
unfolding b64url_uint
b64url_uint-injective decode back m n e =
    let bytes : to_bytes m m ≡ to_bytes n n =
      sym (back (to_bytes m m) (to_bytes-lt_fuel m m))
      ∙ ap decode e
      ∙ back (to_bytes n n) (to_bytes-lt_fuel n n) in
    sym (from_bytes-to_bytes m) ∙ ap from_bytes bytes ∙ from_bytes-to_bytes n
