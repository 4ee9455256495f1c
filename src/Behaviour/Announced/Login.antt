-- ===== src/Behaviour/Announced/Login.antt =====
-- commands/verify_otp.py: its event, once for an account.
use diddifree_id.Prelude.{
  ◌+◌, ◌≡◌, refl, String, Option, true, false, none, some, arith, find_first, Option-cases,
  Bool-cases, inl, inr, leb,
}
use diddifree_id.Domain.Access.{UserStatus, status_eq, status_eq_iff, role_value}
use diddifree_id.Domain.Entities.{User, OtpCode, is_expired}
use diddifree_id.Domain.Events.{user_registered, event_base}
use diddifree_id.Platform.Environment.{Env}
use diddifree_id.Platform.Monad.{World}
use diddifree_id.Application.Validation.{strip_spaces, is_e164}
use diddifree_id.Infra.Users.{user_by_id, user_by_phone, put_user, add_status_change}
use diddifree_id.Infra.Users.Save.{save_found}
use diddifree_id.Infra.Otps.{has_otp_id, latest_active, add_attempt, consume_code, count_attempt}
use diddifree_id.Infra.Otps.Laws.{find-add_attempt, mark_consumed_open, users-consume_code}
use diddifree_id.Infra.Tokens.{add_token}
use diddifree_id.Infra.Security.{verify_otp_code}
use diddifree_id.Infra.TokenService.{KeyRing}
use diddifree_id.Commands.VerifyOtp.{verify_otp, verified_status}
use diddifree_id.Lifecycle.Keyed.{IsKeyed, user_by_id-user_by_phone, latest_active-IsOpenCode}
use diddifree_id.Behaviour.Announced.{IsAnnounced, quiet, refreshed, put-IsAnnounced}

module _ ⦃env : Env⦄ (ring : KeyRing) (phone code : String) (device : Option String) (w : World)
    (clean : w.committed ≡ w.db) (v : is_e164 (strip_spaces phone) ≡ true) (o : OtpCode)
    (l : latest_active (strip_spaces phone) w.db.otp_codes ≡ some o)
    (x : is_expired o (env.clock w.draws) ≡ false)
    (f : find_first (has_otp_id o.id) w.db.otp_codes ≡ some o) (u : o.consumed_at ≡ none) where
  miss-IsAnnounced :
      verify_otp_code code o.code_hash ≡ false → IsAnnounced w (verify_otp ring phone code device w)
  unfolding verify_otp add_attempt consume_code
  miss-IsAnnounced c = elim (Bool-cases (leb env.settings.otp_max_attempts (o.attempts + 1))) [
    | inl m ↦
        let found = find-add_attempt o.id w.db o f in
        let burnt =
          mark_consumed_open o.id (record w { db = add_attempt o.id w.db; draws = w.draws + 1 })
            (count_attempt o) found u in
        quiet (ground (arith, v, l, x, c, m, found, burnt))
          (ground (arith, v, l, x, c, m, found, burnt, clean))
    | inr m ↦
        let found = find-add_attempt o.id w.db o f in
        quiet (ground (arith, v, l, x, c, m, found)) (ground (arith, v, l, x, c, m, found, clean))
  ]

  module _ (c : verify_otp_code code o.code_hash ≡ true) where
    refused-IsAnnounced :
        user_by_phone (strip_spaces phone) w.db.users ≡ none
        → IsAnnounced w (verify_otp ring phone code device w)
    unfolding verify_otp consume_code
    refused-IsAnnounced p =
        let consumed = mark_consumed_open o.id (record w { draws = w.draws + 1 }) o f u in
        quiet (ground (arith, v, l, x, c, p, consumed)) (ground (arith, v, l, x, c, p, consumed))

    module _ (a : User) (p : user_by_phone (strip_spaces phone) w.db.users ≡ some a)
        (g : user_by_id a.id w.db.users ≡ some a) where
      suspended-IsAnnounced :
          status_eq a.status UserStatus.suspended ≡ true
          → IsAnnounced w (verify_otp ring phone code device w)
      unfolding verify_otp consume_code
      suspended-IsAnnounced s =
          let consumed = mark_consumed_open o.id (record w { draws = w.draws + 1 }) o f u in
          quiet (ground (arith, v, l, x, c, p, s, consumed))
            (ground (arith, v, l, x, c, p, s, consumed))

      login-IsAnnounced :
          status_eq a.status UserStatus.pending_verification ≡ false
          → status_eq a.status UserStatus.suspended ≡ false
          → IsAnnounced w (verify_otp ring phone code device w)
      unfolding verify_otp consume_code add_token
      login-IsAnnounced n s =
          let consumed = mark_consumed_open o.id (record w { draws = w.draws + 1 }) o f u in
          refreshed a.id (ground (arith, v, l, x, c, p, n, s, consumed))
            (ground (arith, v, l, x, c, p, n, s, consumed))
            (ground (arith, v, l, x, c, p, n, s, consumed, clean))

      activation-IsAnnounced :
          status_eq a.status UserStatus.pending_verification ≡ true
          → IsAnnounced w (verify_otp ring phone code device w)
      unfolding verify_otp consume_code add_token add_status_change put_user event_base
      activation-IsAnnounced n =
          let b : User = record a { status = verified_status a } in
          let consumed = mark_consumed_open o.id (record w { draws = w.draws + 1 }) o f u in
          let saved =
            save_found b
              (record w {
                db = consume_code o.id (env.clock (w.draws + 1)) w.db;
                draws = w.draws + 1 + 1;
              })
              a (rw users-consume_code g) in
          put-IsAnnounced b a (env.clock (w.draws + 2))
            (user_registered (record {
              user_id = a.id;
              phone = a.phone;
              role = role_value a.role;
              at = env.clock (w.draws + 6);
            }))
            w (verify_otp ring phone code device w) refl g clean
            (ground (arith, v, l, x, c, p, n, consumed, saved))
            (ground (arith, v, l, x, c, p, n, consumed, saved))
            (ground (arith, v, l, x, c, p, n, consumed, saved))
            (record { user_id = refl; phone = refl; role = refl })
            ((status_eq_iff a.status UserStatus.pending_verification).0 n)

module _ ⦃env : Env⦄ (ring : KeyRing) (phone code : String) (device : Option String) (w : World)
    (clean : w.committed ≡ w.db) (k : IsKeyed w.db) where
  hit-IsAnnounced :
      (o : OtpCode)
      → is_e164 (strip_spaces phone) ≡ true
      → latest_active (strip_spaces phone) w.db.otp_codes ≡ some o
      → is_expired o (env.clock w.draws) ≡ false
      → find_first (has_otp_id o.id) w.db.otp_codes ≡ some o
      → o.consumed_at ≡ none
      → verify_otp_code code o.code_hash ≡ true
      → IsAnnounced w (verify_otp ring phone code device w)
  hit-IsAnnounced o v l x f u c =
      elim (Option-cases (user_by_phone (strip_spaces phone) w.db.users)) [
        | inl p ↦ refused-IsAnnounced ring phone code device w clean v o l x f u c p
        | inr (a, p) ↦
            let g = user_by_id-user_by_phone (strip_spaces phone) w.db k p in
            elim (Bool-cases (status_eq a.status UserStatus.suspended)) [
              | inl s ↦ suspended-IsAnnounced ring phone code device w clean v o l x f u c a p g s
              | inr s ↦ elim (Bool-cases (status_eq a.status UserStatus.pending_verification)) [
                | inl n ↦
                    activation-IsAnnounced ring phone code device w clean v o l x f u c a p g n
                | inr n ↦ login-IsAnnounced ring phone code device w clean v o l x f u c a p g n s
              ]
            ]
      ]

  pub verify_otp-IsAnnounced : IsAnnounced w (verify_otp ring phone code device w)
  unfolding verify_otp
  verify_otp-IsAnnounced = elim (Bool-cases (is_e164 (strip_spaces phone))) [
    | inr v ↦ quiet (ground (arith, v)) (ground (arith, v))
    | inl v ↦ elim (Option-cases (latest_active (strip_spaces phone) w.db.otp_codes)) [
      | inl l ↦ quiet (ground (arith, v, l)) (ground (arith, v, l))
      | inr (o, l) ↦ elim (Bool-cases (is_expired o (env.clock w.draws))) [
        | inl x ↦ quiet (ground (arith, v, l, x)) (ground (arith, v, l, x))
        | inr x ↦
            let open_code = latest_active-IsOpenCode (strip_spaces phone) w.db k l in
            elim (Bool-cases (verify_otp_code code o.code_hash)) [
              | inl c ↦ hit-IsAnnounced o v l x open_code.found open_code.unconsumed c
              | inr c ↦
                  miss-IsAnnounced ring phone code device w clean v o l x open_code.found
                    open_code.unconsumed c
            ]
      ]
    ]
  ]
