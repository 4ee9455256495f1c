-- ===== src/Platform/Monad.antt =====
-- A request in progress: what it reads and writes, and how it fails (identity_app/core/errors.py).
-- What was written before a failure stays in the state; the session rolls it back.
use diddifree_id.Prelude.{
  ℕ, String, ◌+◌, Bool, true, false, Option, none, some, List, ◌∷◌, ◌≡◌, refl, ◌⊎◌, inl, inr,
}
use diddifree_id.Domain.Access.{UserStatus}
use diddifree_id.Platform.Database.{Db}
use diddifree_id.Platform.Redis.{RedisCall}
use diddifree_id.Platform.Environment.{Env}

-- The `code` of an `ApiError`.
pub data ErrorCode : Type 0 where
  invalid_phone_format phone_already_registered otp_rate_limited : ErrorCode
  otp_invalid otp_expired otp_too_many_attempts user_not_found user_suspended : ErrorCode
  refresh_token_invalid refresh_token_revoked : ErrorCode
  invalid_role invalid_status status_not_settable invalid_status_transition : ErrorCode
  no_kyc_pending : ErrorCode
  token_missing token_invalid token_expired service_token_not_allowed : ErrorCode
  user_not_verified forbidden_role service_key_invalid : ErrorCode

-- The `details` of an `ApiError`.
pub data Details : Type 0 where
  no_details : Details
  field : String → Details
  field_accepted : String → List String → Details
  retry_after_seconds : ℕ → Details
  attempts : ℕ → Details
  attempts_remaining : ℕ → Details
  transition : UserStatus → UserStatus → Details

-- Without `message`, the text shown to people.
pub record ApiError : Type 0 where
  pub status_code : ℕ
  pub code : ErrorCode
  pub details : Details

-- What a handler raises: an `ApiError`, the database's refusal of a row, or a `TypeError`.
pub data Fault : Type 0 where
  api_error : ApiError → Fault
  integrity_error : Fault
  no_result_found : Fault
  type_error : Fault

pub data Result (A : Type 0) : Type 0 where
  ok : A → Result A
  err : Fault → Result A

-- An `ApiError`.
abbrev pub refusal : {A : Type 0} → ℕ → ErrorCode → Details → Result A
refusal status c d = err (api_error (record { status_code = status; code = c; details = d }))

pub Result-cases :
    {A : Type 0} (r : Result A) → ((a : A) × (r ≡ ok a)) ⊎ ((e : Fault) × (r ≡ err e))
Result-cases (ok a) = inl (a, refl)
Result-cases (err e) = inr (e, refl)

-- A line that `LoggingOtpSender` logs: with the code, or without it.
pub data LogLine : Type 0 where
  otp_plaintext : String → String → LogLine
  otp_issued : String → LogLine

-- `db` is what the open transaction sees, `committed` what other sessions see. `redis` holds the
-- commands sent to Redis and `log` the lines logged, the last one first; `draws` counts the
-- readings of the clock, of randomness and of fresh ids.
pub record World : Type 0 where
  pub db : Db
  pub committed : Db
  pub redis : List RedisCall
  pub log : List LogLine
  pub draws : ℕ

abbrev pub M : Type 0 → Type 0
M A = World → Result A × World

infixl 5 ◌>>=◌ ◌>>◌
abbrev pub ◌>>=◌ : {A B : Type 0} → M A → (A → M B) → M B
◌>>=◌ m f w = let (r, w') = m w in elim r [ ok a ↦ f a w' | err e ↦ (err e, w') ]

abbrev pub ◌>>◌ : {A B : Type 0} → M A → M B → M B
m >> k = m >>= λ _. k

module _ {A : Type 0} where
  abbrev pub pure : A → M A
  pure a w = (ok a, w)

  abbrev pub raise : ℕ → ErrorCode → Details → M A
  raise status c d w = (err (api_error (record { status_code = status; code = c; details = d })), w)

  abbrev pub or_raise : Option A → M A → M A
  or_raise none e = e
  or_raise (some a) e = pure a

abbrev pub raise_if : Bool → M Unit → M Unit
raise_if true e = e
raise_if false e = pure tt

-- A read of the tables, and a statement that changes them.
abbrev pub query : {A : Type 0} → (Db → A) → M A
query f w = (ok (f w.db), w)

abbrev pub execute : (Db → Db) → M Unit
execute f w = (ok tt, record w { db = f w.db })

-- A call of a source of time, randomness or ids.
abbrev pub draw : {A : Type 0} → (ℕ → A) → M A
draw f w = (ok (f w.draws), record w { draws = w.draws + 1 })

-- A command sent to Redis, and its reply.
abbrev pub send : {A : Type 0} → RedisCall → (List RedisCall → A) → M A
send c reply w = (ok (reply (c ∷ w.redis)), record w { redis = c ∷ w.redis })

abbrev pub log_line : LogLine → M Unit
log_line l w = (ok tt, record w { log = l ∷ w.log })

module _ ⦃env : Env⦄ where
  abbrev pub now : M ℕ
  now = draw env.clock

  abbrev pub new_id : M ℕ
  new_id = draw env.uuid4
