-- ===== src/Infra/Otps.antt =====
-- identity_app/modules/identity/infra/write_repository.py: `SqlAlchemyOtpRepository`.
pub mod Laws
use diddifree_id.Prelude.{
  ℕ, ◌+◌, String, Bool, ◌&&◌, not, Option, none, some, List, [], ◌∷◌, ◌++◌, is_some, find_first,
  update_where, str_eq, ◌==◌, leb, if◌then◌else◌,
}
use diddifree_id.Domain.Entities.{OtpCode}
use diddifree_id.Platform.Database.{Db}
use diddifree_id.Platform.Environment.{Env}
use diddifree_id.Platform.Monad.{
  ok, err, no_result_found, M, ◌>>=◌, ◌>>◌, pure, query, execute, now,
}

abbrev pub has_otp_id : ℕ → OtpCode → Bool
has_otp_id otp_id o = o.id == otp_id

-- `phone == phone AND consumed_at IS NULL`
abbrev pub is_active_for : String → OtpCode → Bool
is_active_for phone o = str_eq o.phone phone && not (is_some o.consumed_at)

-- The code of the two that was created last; the later row if they are as old.
abbrev pub newer : OtpCode → Option OtpCode → OtpCode
newer o none = o
newer o (some p) = if leb o.created_at p.created_at then p else o

-- `ORDER BY created_at DESC LIMIT 1` of the rows that match
unfoldable pub latest_active : String → List OtpCode → Option OtpCode
latest_active phone [] = none
latest_active phone (o ∷ rest) =
    let found = latest_active phone rest in
    if is_active_for phone o then some (newer o found) else found

unfoldable pub add_code : OtpCode → Db → Db
add_code o db = record db { otp_codes = db.otp_codes ++ o ∷ [] }

unfoldable pub save : OtpCode → M OtpCode
save otp = do execute (add_code otp); pure otp

unfoldable pub find_latest_active : String → M (Option OtpCode)
find_latest_active phone = query (λ db. latest_active phone db.otp_codes)

-- `attempts = attempts + 1`
abbrev pub count_attempt : OtpCode → OtpCode
count_attempt o = record o { attempts = o.attempts + 1 }

unfoldable pub add_attempt : ℕ → Db → Db
add_attempt otp_id db = record db {
  otp_codes = update_where (has_otp_id otp_id) count_attempt db.otp_codes;
}

-- `scalar_one()` of `RETURNING attempts`, of the row with the id
abbrev pub attempts_of : Option OtpCode → M ℕ
attempts_of none w = (err no_result_found, w)
attempts_of (some o) w = (ok o.attempts, w)

unfoldable pub register_attempt : ℕ → M ℕ
register_attempt otp_id = do
  execute (add_attempt otp_id)
  row ← query (λ db. find_first (has_otp_id otp_id) db.otp_codes)
  attempts_of row

abbrev pub consume : ℕ → OtpCode → OtpCode
consume t o = record o { consumed_at = some t }

unfoldable pub consume_code : ℕ → ℕ → Db → Db
consume_code otp_id t db = record db {
  otp_codes = update_where (has_otp_id otp_id) (consume t) db.otp_codes;
}

module _ ⦃env : Env⦄ where
  -- Nothing happens if there is no such row, or if it was consumed before.
  consume_row : ℕ → Option OtpCode → M Unit
  consume_row otp_id none = pure tt
  consume_row otp_id (some row) =
      if is_some row.consumed_at then pure tt else (do t ← now; execute (consume_code otp_id t))

  unfoldable pub mark_consumed : ℕ → M Unit
  unfolding consume_row
  mark_consumed otp_id = do
    row ← query (λ db. find_first (has_otp_id otp_id) db.otp_codes)
    consume_row otp_id row
