-- ===== src/Refinement/VerifyOtp.antt =====
-- commands/verify_otp.py beside the lifecycle.
use diddifree_id.Prelude.{
  ℕ, ◌+◌, ◌≡◌, refl, sym, ◌∙◌, subst, String, Option, true, false, none, some, arith, find_first,
  Option-cases, Bool-cases, inl, inr, leb,
}
use diddifree_id.Domain.Access.{UserStatus, status_eq, is_session_allowed}
use diddifree_id.Domain.Entities.{User, OtpCode, is_expired}
use diddifree_id.Platform.Environment.{Env}
use diddifree_id.Platform.Monad.{World}
use diddifree_id.Application.Validation.{strip_spaces, is_e164}
use diddifree_id.Infra.Users.{user_by_id, user_by_phone, put_user, add_status_change}
use diddifree_id.Infra.Users.Save.{save_found}
use diddifree_id.Infra.Otps.{has_otp_id, latest_active, add_attempt, consume_code, count_attempt}
use diddifree_id.Infra.Otps.Laws.{find-add_attempt, mark_consumed_open, users-consume_code}
use diddifree_id.Infra.Tokens.{add_token}
use diddifree_id.Infra.Security.{verify_otp_code}
use diddifree_id.Infra.TokenService.{KeyRing, hash_refresh_token, refresh_expiry, opaque_token}
use diddifree_id.Commands.Rows.{status_change, new_session}
use diddifree_id.Commands.VerifyOtp.{verify_otp, verified_status}
use diddifree_id.Lifecycle.{Change, keep, code_missed, code_burnt, logged_in, activated}
use diddifree_id.Lifecycle.Keyed.{IsKeyed, user_by_id-user_by_phone, latest_active-IsOpenCode}

session_of_others :
    (a : User)
    → status_eq a.status UserStatus.pending_verification ≡ false
    → status_eq a.status UserStatus.suspended ≡ false
    → is_session_allowed a.status ≡ true
unfolding is_session_allowed
session_of_others a n s = ground arith

module _ ⦃env : Env⦄ (ring : KeyRing) (phone code : String) (device : Option String) (w : World)
    (v : is_e164 (strip_spaces phone) ≡ true) (o : OtpCode)
    (l : latest_active (strip_spaces phone) w.db.otp_codes ≡ some o)
    (x : is_expired o (env.clock w.draws) ≡ false)
    (f : find_first (has_otp_id o.id) w.db.otp_codes ≡ some o) (u : o.consumed_at ≡ none) where
  committed-miss :
      verify_otp_code code o.code_hash ≡ false
      → leb env.settings.otp_max_attempts (o.attempts + 1) ≡ false
      → (verify_otp ring phone code device w).1.committed ≡ add_attempt o.id w.db
  unfolding verify_otp
  committed-miss c m = ground (arith, v, l, x, c, m, find-add_attempt o.id w.db o f)

  committed-burn :
      verify_otp_code code o.code_hash ≡ false
      → leb env.settings.otp_max_attempts (o.attempts + 1) ≡ true
      → (verify_otp ring phone code device w).1.committed
        ≡ consume_code o.id (env.clock (w.draws + 1)) (add_attempt o.id w.db)
  unfolding verify_otp
  committed-burn c m = ground (
    arith,
    v,
    l,
    x,
    c,
    m,
    find-add_attempt o.id w.db o f,
    mark_consumed_open o.id (record w { db = add_attempt o.id w.db; draws = w.draws + 1 })
        (count_attempt o) (find-add_attempt o.id w.db o f) u,
  )

  -- The code was right, and no account may use it: nothing is committed.
  committed-no_account :
      verify_otp_code code o.code_hash ≡ true
      → user_by_phone (strip_spaces phone) w.db.users ≡ none
      → (verify_otp ring phone code device w).1.committed ≡ w.committed
  unfolding verify_otp
  committed-no_account c p = ground (
    arith,
    v,
    l,
    x,
    c,
    p,
    mark_consumed_open o.id (record w { draws = w.draws + 1 }) o f u,
    users-consume_code o.id w.db (env.clock (w.draws + 1)),
  )

  committed-suspended :
      (a : User)
      → verify_otp_code code o.code_hash ≡ true
      → user_by_phone (strip_spaces phone) w.db.users ≡ some a
      → status_eq a.status UserStatus.suspended ≡ true
      → (verify_otp ring phone code device w).1.committed ≡ w.committed
  unfolding verify_otp
  committed-suspended a c p s = ground (
    arith,
    v,
    l,
    x,
    c,
    p,
    s,
    mark_consumed_open o.id (record w { draws = w.draws + 1 }) o f u,
    users-consume_code o.id w.db (env.clock (w.draws + 1)),
  )

  module _ (a : User) (c : verify_otp_code code o.code_hash ≡ true)
      (p : user_by_phone (strip_spaces phone) w.db.users ≡ some a)
      (g : user_by_id a.id w.db.users ≡ some a) where
    pub committed-login :
        status_eq a.status UserStatus.pending_verification ≡ false
        → status_eq a.status UserStatus.suspended ≡ false
        → (verify_otp ring phone code device w).1.committed
          ≡ add_token
              (new_session
                (env.uuid4 (w.draws + 3))
                a.id
                (hash_refresh_token (opaque_token (w.draws + 2)))
                device
                (refresh_expiry (env.clock w.draws))
                (env.clock w.draws))
              (consume_code o.id (env.clock (w.draws + 1)) w.db)
    unfolding verify_otp
    committed-login n s = ground (
      arith,
      v,
      l,
      x,
      c,
      p,
      n,
      s,
      mark_consumed_open o.id (record w { draws = w.draws + 1 }) o f u,
      users-consume_code o.id w.db (env.clock (w.draws + 1)),
    )

    g_consumed : user_by_id a.id (consume_code o.id (env.clock (w.draws + 1)) w.db).users ≡ some a
    g_consumed = rw users-consume_code g

    pub committed-activate :
        status_eq a.status UserStatus.pending_verification ≡ true
        → (verify_otp ring phone code device w).1.committed
          ≡ add_token
              (new_session
                (env.uuid4 (w.draws + 5))
                a.id
                (hash_refresh_token (opaque_token (w.draws + 4)))
                device
                (refresh_expiry (env.clock w.draws))
                (env.clock w.draws))
              (add_status_change
                (status_change
                  (env.uuid4 (w.draws + 3))
                  a.id
                  UserStatus.pending_verification
                  (verified_status a)
                  (some "Vérification OTP")
                  none
                  (env.clock w.draws))
                (put_user
                  (record a { status = verified_status a })
                  (env.clock (w.draws + 2))
                  (consume_code o.id (env.clock (w.draws + 1)) w.db)))
    unfolding verify_otp
    committed-activate n = ground (
      arith,
      v,
      l,
      x,
      c,
      p,
      n,
      mark_consumed_open o.id (record w { draws = w.draws + 1 }) o f u,
      users-consume_code o.id w.db (env.clock (w.draws + 1)),
      save_found (record a { status = verified_status a })
          (record w {
            db = consume_code o.id (env.clock (w.draws + 1)) w.db;
            draws = w.draws + 1 + 1;
          })
          a g_consumed,
    )

  verify_miss :
      {New : ℕ → Type 0}
      → verify_otp_code code o.code_hash ≡ false
      → Change New w.db (verify_otp ring phone code device w).1.committed
  verify_miss c = elim (Bool-cases (leb env.settings.otp_max_attempts (o.attempts + 1))) [
    | inl m ↦
        subst (Change _ w.db) (sym (committed-burn c m))
          (code_burnt o _ (record { found = f; unconsumed = u }) (ground arith))
    | inr m ↦
        subst (Change _ w.db) (sym (committed-miss c m))
          (code_missed o (record { found = f; unconsumed = u }) (ground arith))
  ]

  verify_hit :
      {New : ℕ → Type 0}
      → w.committed ≡ w.db
      → IsKeyed w.db
      → verify_otp_code code o.code_hash ≡ true
      → Change New w.db (verify_otp ring phone code device w).1.committed
  verify_hit clean k c = elim (Option-cases (user_by_phone (strip_spaces phone) w.db.users)) [
    | inl p ↦ subst (Change _ w.db) (sym (committed-no_account c p ∙ clean)) keep
    | inr (a, p) ↦
        (let g = user_by_id-user_by_phone (strip_spaces phone) w.db k p in
          elim (Bool-cases (status_eq a.status UserStatus.suspended)) [
            | inl s ↦ subst (Change _ w.db) (sym (committed-suspended a c p s ∙ clean)) keep
            | inr s ↦ elim (Bool-cases (status_eq a.status UserStatus.pending_verification)) [
              | inl n ↦ subst (Change _ w.db) (sym (committed-activate a c p g n)) (
                  activated o a _ _ _ _ _ _ (record { found = f; unconsumed = u }) g (ground arith)
                    (record { owner = refl; open_session = refl }))
              | inr n ↦ subst (Change _ w.db) (sym (committed-login a c p g n s)) (
                  logged_in o a _ _ (record { found = f; unconsumed = u }) g
                    (session_of_others a n s) (record { owner = refl; open_session = refl }))
            ]
          ])
  ]

module _ ⦃env : Env⦄ (ring : KeyRing) (phone code : String) (device : Option String) (w : World)
    (clean : w.committed ≡ w.db) (k : IsKeyed w.db) where
  verify_found :
      {New : ℕ → Type 0}
      → (o : OtpCode) → is_e164 (strip_spaces phone) ≡ true
      → latest_active (strip_spaces phone) w.db.otp_codes ≡ some o
      → is_expired o (env.clock w.draws) ≡ false
      → Change New w.db (verify_otp ring phone code device w).1.committed
  verify_found o v l x =
      let open_code = latest_active-IsOpenCode (strip_spaces phone) w.db k l in
      elim (Bool-cases (verify_otp_code code o.code_hash)) [
        | inl c ↦
            verify_hit ring phone code device w v o l x open_code.found open_code.unconsumed clean k
              c
        | inr c ↦
            verify_miss ring phone code device w v o l x open_code.found open_code.unconsumed c
      ]

  -- On a session with nothing to write and ids that are keys, the verification of a code,
  -- whatever it replies, leaves committed tables that one step `Change` of the lifecycle makes of
  -- those before it (keeping them is a step).
  pub verify_otp-Change :
      {New : ℕ → Type 0} → Change New w.db (verify_otp ring phone code device w).1.committed
  unfolding verify_otp
  verify_otp-Change = elim (Bool-cases (is_e164 (strip_spaces phone))) [
    | inr v ↦ rw (v, clean) keep
    | inl v ↦ elim (Option-cases (latest_active (strip_spaces phone) w.db.otp_codes)) [
      | inl l ↦ rw (v, l, clean) keep
      | inr (o, l) ↦ elim (Bool-cases (is_expired o (env.clock w.draws))) [
        | inl x ↦ rw (v, l, x, clean) keep
        | inr x ↦ verify_found o v l x
      ]
    ]
  ]
