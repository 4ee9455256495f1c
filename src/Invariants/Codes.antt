-- ===== src/Invariants/Codes.antt =====
-- Codes: one that is not consumed has had fewer wrong guesses than the ceiling.
use diddifree_id.Prelude.{
  ℕ, ◌+◌, ◌<◌, ◌≡◌, refl, subst, Bool, true, false, ◌||◌, some, List, [], ◌∷◌, arith, is_some, ltb,
  All, All-map, All-append_one, All-update_where, update_where, find_first,
}
use diddifree_id.Domain.Entities.{OtpCode}
use diddifree_id.Platform.Database.{Db}
use diddifree_id.Platform.Environment.{Env}
use diddifree_id.Infra.Users.{add_user, put_user, add_status_change, add_role_change}
use diddifree_id.Infra.Otps.{
  add_code, add_attempt, consume_code, has_otp_id, count_attempt, consume,
}
use diddifree_id.Infra.Tokens.{add_token, close_token, close_tokens_of}
use diddifree_id.Lifecycle.{Change, code_issued, code_missed, code_burnt, logged_in, activated}
use diddifree_id.Lifecycle.Keyed.{IsKeyed}

abbrev pub code_ok : ℕ → OtpCode → Bool
code_ok max o = is_some o.consumed_at || ltb o.attempts max

abbrev pub AreCodesBounded : ℕ → Db → Type 0
AreCodesBounded max db = All (λ o. code_ok max o ≡ true) db.otp_codes

-- What is known of a row of the table: it is bounded, and its id is its key.
abbrev IsKnown : ℕ → List OtpCode → OtpCode → Type 0
IsKnown max cs o = (code_ok max o ≡ true) × (find_first (has_otp_id o.id) cs ≡ some o)

known :
    (max : ℕ) (cs ds : List OtpCode)
    → All (λ o. code_ok max o ≡ true) ds
    → All (λ o. find_first (has_otp_id o.id) cs ≡ some o) ds
    → All (IsKnown max cs) ds
known max cs [] hs ks = tt
known max cs (d ∷ ds) hs ks = ((hs.0, ks.0), known max cs ds hs.1 ks.1)

module _ (max : ℕ) (o : OtpCode) (db : Db) where
  -- The row that a wrong guess counts on is the one that was looked at.
  miss_row :
      (c : OtpCode)
      → find_first (has_otp_id o.id) db.otp_codes ≡ some o
      → o.attempts + 1 < max
      → has_otp_id o.id c ≡ true
      → IsKnown max db.otp_codes c
      → code_ok max (count_attempt c) ≡ true
  miss_row c f lt hit k =
      let e : c.id ≡ o.id = ground arith in
      let same = subst (λ i. find_first (has_otp_id i) db.otp_codes ≡ some c) e k.1 in
      ground (arith, f, same, lt)

  miss_codes :
      IsKeyed db
      → find_first (has_otp_id o.id) db.otp_codes ≡ some o
      → o.attempts + 1 < max
      → AreCodesBounded max db
      → AreCodesBounded max (add_attempt o.id db)
  unfolding add_attempt
  miss_codes keys f lt h =
      All-update_where (IsKnown max db.otp_codes) (λ c. code_ok max c ≡ true) (has_otp_id o.id)
        count_attempt db.otp_codes (λ c hit k. miss_row c f lt hit k) (λ c miss k. k.0)
        (known max db.otp_codes db.otp_codes h keys.codes)

-- A row is bounded unless it has this id.
abbrev BoundedBut : ℕ → ℕ → OtpCode → Type 0
BoundedBut max i c = has_otp_id i c ≡ false → code_ok max c ≡ true

consume_codes :
    (max i t : ℕ) (cs : List OtpCode)
    → All (BoundedBut max i) cs
    → All (λ c. code_ok max c ≡ true) (update_where (has_otp_id i) (consume t) cs)
consume_codes max i t cs =
    All-update_where (BoundedBut max i) (λ c. code_ok max c ≡ true) (has_otp_id i) (consume t) cs
      (λ c hit k. refl) (λ c miss k. k miss)

burn_codes :
    (max i t : ℕ) (db : Db)
    → AreCodesBounded max db
    → AreCodesBounded max (consume_code i t (add_attempt i db))
unfolding add_attempt consume_code
burn_codes max i t db h =
    consume_codes max i t (update_where (has_otp_id i) count_attempt db.otp_codes) (
      All-update_where (λ c. code_ok max c ≡ true) (BoundedBut max i) (has_otp_id i) count_attempt
        db.otp_codes (λ c hit k miss. ground arith) (λ c miss k _. k) h)

consume_one :
    (max i t : ℕ) (db : Db) → AreCodesBounded max db → AreCodesBounded max (consume_code i t db)
unfolding consume_code
consume_one max i t db h =
    consume_codes max i t db.otp_codes
      (All-map (λ c. code_ok max c ≡ true) (BoundedBut max i) db.otp_codes (λ c k _. k) h)

module _ ⦃env : Env⦄ (some_attempts : 0 < env.settings.otp_max_attempts) where
  -- If at least one attempt at a code is allowed and ids are keys, a step of the lifecycle keeps
  -- this: a code that is not consumed was guessed at less often than otp_max_attempts.
  pub Change-AreCodesBounded :
      {New : ℕ → Type 0} {db db' : Db}
      → Change New db db'
      → IsKeyed db
      → AreCodesBounded env.settings.otp_max_attempts db
      → AreCodesBounded env.settings.otp_max_attempts db'
  unfolding add_user put_user add_status_change add_role_change add_code add_token close_token
      close_tokens_of
  Change-AreCodesBounded {db} (code_issued o _ new z u) k h =
      All-append_one (λ c. code_ok env.settings.otp_max_attempts c ≡ true) db.otp_codes o h
        (ground arith)
  Change-AreCodesBounded {db} (code_missed o f lt) k h = miss_codes _ o db k f.found lt h
  Change-AreCodesBounded {db} (code_burnt o t _ _) k h = burn_codes _ o.id t db h
  Change-AreCodesBounded {db} (logged_in o a x t _ f ok s) k h = consume_one _ o.id t db h
  Change-AreCodesBounded {db} (activated o a x t s i at r _ f n q) k h = consume_one _ o.id t db h
  Change-AreCodesBounded _ k h = h
