-- ===== src/Lifecycle/Keyed.antt =====
-- The ids are keys: a lookup by the id of a row gives that row.
use diddifree_id.Prelude.{
  String, ◌≡◌, ◌⊎◌, subst, Option, none, some, List, [], ◌∷◌, All, All-find, Bool-cases, inl, inr,
  true, arith, find_first, leb,
}
use diddifree_id.Domain.Entities.{User, OtpCode}
use diddifree_id.Platform.Database.{Db}
use diddifree_id.Infra.Users.{user_by_id, user_by_phone, has_phone}
use diddifree_id.Infra.Otps.{has_otp_id, latest_active, is_active_for, newer}

pub record IsKeyed (db : Db) : Type 0 where
  pub users : All (λ u. user_by_id u.id db.users ≡ some u) db.users
  pub codes : All (λ o. find_first (has_otp_id o.id) db.otp_codes ≡ some o) db.otp_codes

pub user_by_id-user_by_phone :
    (p : String) (db : Db) {a : User}
    → IsKeyed db
    → user_by_phone p db.users ≡ some a
    → user_by_id a.id db.users ≡ some a
user_by_id-user_by_phone p db k e =
    All-find (λ u. user_by_id u.id db.users ≡ some u) (has_phone p) db.users k.users e

latest_active_nil : (p : String) {o : OtpCode} → latest_active p [] ≡ some o → ⊥
unfolding latest_active
latest_active_nil p h = ground arith

newer_cases :
    (c o : OtpCode) (found : Option OtpCode) → newer c found ≡ o → (c ≡ o) ⊎ (found ≡ some o)
newer_cases c o none h = inl h
newer_cases c o (some q) h = elim (Bool-cases (leb c.created_at q.created_at)) [
  | inl e ↦ inr (ground arith)
  | inr e ↦ inl (ground arith)
]

latest_active_cases :
    (p : String) (c : OtpCode) (cs : List OtpCode) {o : OtpCode}
    → latest_active p (c ∷ cs) ≡ some o
    → ((c ≡ o) × (is_active_for p c ≡ true)) ⊎ (latest_active p cs ≡ some o)
unfolding latest_active
latest_active_cases p c cs {o} h = elim (Bool-cases (is_active_for p c)) [
  | inr e ↦ inr (ground arith)
  | inl e ↦ elim (newer_cases c o (latest_active p cs) (ground arith)) [
    | inl q ↦ inl (q, e)
    | inr q ↦ inr q
  ]
]

-- The newest active code is a row, and is active.
pub All-latest_active {κ} :
    (P : OtpCode → Type κ) (p : String) (cs : List OtpCode) {o : OtpCode}
    → All P cs
    → latest_active p cs ≡ some o
    → P o × (is_active_for p o ≡ true)
All-latest_active P p [] hs h = absurd (latest_active_nil p h)
All-latest_active P p (c ∷ cs) hs h = elim (latest_active_cases p c cs h) [
  | inl (q, e) ↦ (subst P q hs.0, subst (λ o. is_active_for p o ≡ true) q e)
  | inr e ↦ All-latest_active P p cs hs.1 e
]

-- A code that can still be tried, as the table holds it.
pub record IsOpenCode (db : Db) (o : OtpCode) : Type 0 where
  pub found : find_first (has_otp_id o.id) db.otp_codes ≡ some o
  pub unconsumed : o.consumed_at ≡ none

-- The code that a verification looks at can still be tried.
pub latest_active-IsOpenCode :
    (p : String) (db : Db) {o : OtpCode}
    → IsKeyed db
    → latest_active p db.otp_codes ≡ some o
    → IsOpenCode db o
latest_active-IsOpenCode p db {o} k e =
    let (found, active) =
      All-latest_active (λ c. find_first (has_otp_id c.id) db.otp_codes ≡ some c) p db.otp_codes
        k.codes e in
    record { found = found; unconsumed = ground arith }
