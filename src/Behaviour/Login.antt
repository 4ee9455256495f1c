-- ===== src/Behaviour/Login.antt =====
-- commands/verify_otp.py: what a right code gives.
use diddifree_id.Prelude.{
  ℕ, ◌+◌, ◌≤◌, ◌≡◌, refl, sym, ap, subst, String, Option, true, false, none, some, [], ◌∷◌, ◌++◌,
  arith, Bool-cases, inl, inr, if◌then◌else◌,
}
use diddifree_id.Domain.Access.{UserStatus, status_eq, role_value, status_value}
use diddifree_id.Domain.Entities.{User, OtpCode, RefreshToken, is_expired}
use diddifree_id.Platform.Environment.{Env}
use diddifree_id.Platform.Settings.{timedelta_minutes}
use diddifree_id.Platform.Monad.{World, Result, ok}
use diddifree_id.Application.Payloads.{profile_payload}
use diddifree_id.Application.Validation.{strip_spaces, is_e164}
use diddifree_id.Infra.Users.{user_by_id, user_by_phone, put_user, add_status_change}
use diddifree_id.Infra.Users.Save.{save_found}
use diddifree_id.Infra.Otps.{latest_active, consume_code}
use diddifree_id.Infra.Otps.Laws.{mark_consumed_open, users-consume_code}
use diddifree_id.Infra.Security.{verify_otp_code}
use diddifree_id.Infra.TokenService.{
  KeyRing, issue_access_token, opaque_token, hash_refresh_token, refresh_expiry,
}
use diddifree_id.Commands.VerifyOtp.{Authenticated, verify_otp, verified_status, is_unverified}
use diddifree_id.Platform.Database.{Db}
use diddifree_id.Infra.Tokens.{add_token}
use diddifree_id.Commands.Rows.{new_session}
use diddifree_id.Refinement.VerifyOtp.{committed-login, committed-activate}
use diddifree_id.Lifecycle.Keyed.{
  IsKeyed, IsOpenCode, user_by_id-user_by_phone, latest_active-IsOpenCode,
}

-- The right code of a number that may log in.
pub record IsRightCode ⦃env : Env⦄ (phone code : String) (w : World) (o : OtpCode) (a : User)
    : Type 0 where
  pub valid : is_e164 (strip_spaces phone) ≡ true
  pub latest : latest_active (strip_spaces phone) w.db.otp_codes ≡ some o
  pub fresh : is_expired o (env.clock w.draws) ≡ false
  pub right : verify_otp_code code o.code_hash ≡ true
  pub known : user_by_phone (strip_spaces phone) w.db.users ≡ some a
  pub not_suspended : status_eq a.status UserStatus.suspended ≡ false

-- The account as a login leaves it.
abbrev pub logged_in_account : User → User
logged_in_account a = if is_unverified a then record a { status = verified_status a } else a

module _ ⦃env : Env⦄ (ring : KeyRing) where
  -- What a login leaves and replies, for the account that it was for.
  pub record IsLoggedIn (a : User) (before : World) (r : Result Authenticated × World)
      : Type 0 where
    pub reply : Authenticated
    pub returned : r.0 ≡ ok reply
    pub profile : reply.profile ≡ profile_payload a
    pub issued : World
    pub later : before.draws ≤ issued.draws
    pub done : issued.draws ≤ r.1.draws
    pub access :
        (issue_access_token ring a.id (role_value a.role) (status_value a.status) issued).0
        ≡ ok reply.access_token
    pub session : RefreshToken
    pub stored : r.1.committed.refresh_tokens ≡ before.db.refresh_tokens ++ session ∷ []
    pub owner : session.user_id ≡ a.id
    pub secret : session.token_hash ≡ hash_refresh_token reply.refresh_token
    pub open_session : session.revoked_at ≡ none
    pub expiry : session.expires_at ≡ refresh_expiry (env.clock before.draws)

  -- The access token that is signed after so many readings.
  abbrev signed : User → ℕ → String
  signed a n =
      env.jwt_encode
        (record {
          sub = env.uuid_text a.id;
          role = role_value a.role;
          status = status_value a.status;
          iss = env.settings.jwt_issuer;
          iat = env.clock n;
          exp = env.clock n + timedelta_minutes env.settings.jwt_access_lifetime_minutes;
          service = none;
        })
        ring.private_pem ring.active_kid

  abbrev reply_with : User → ℕ → ℕ → Authenticated
  reply_with a refresh access = record {
    access_token = signed a access;
    refresh_token = opaque_token refresh;
    profile = profile_payload a;
  }

  module _ (phone code : String) (device : Option String) (w : World) (o : OtpCode) (a : User)
      (h : IsRightCode phone code w o a) (k : IsKeyed w.db) where
    abbrev open_code : IsOpenCode w.db o
    open_code = latest_active-IsOpenCode (strip_spaces phone) w.db k h.latest

    reply_login :
        is_unverified a ≡ false
        → (verify_otp ring phone code device w).0 ≡ ok (reply_with a (w.draws + 2) (w.draws + 4))
    unfolding verify_otp issue_access_token
    reply_login n = ground (
      arith,
      h.valid,
      h.latest,
      h.fresh,
      h.right,
      h.known,
      h.not_suspended,
      n,
      mark_consumed_open o.id (record w { draws = w.draws + 1 }) o open_code.found
          open_code.unconsumed,
      users-consume_code o.id w.db (env.clock (w.draws + 1)),
    )

    abbrev found_by_id : user_by_id a.id w.db.users ≡ some a
    found_by_id = user_by_id-user_by_phone (strip_spaces phone) w.db k h.known

    abbrev consumed : Db
    consumed = consume_code o.id (env.clock (w.draws + 1)) w.db

    reply_activate :
        is_unverified a ≡ true
        → (verify_otp ring phone code device w).0
          ≡ ok (reply_with (record a { status = verified_status a }) (w.draws + 4) (w.draws + 7))
    unfolding verify_otp issue_access_token profile_payload
    reply_activate n = ground (
      arith,
      h.valid,
      h.latest,
      h.fresh,
      h.right,
      h.known,
      n,
      mark_consumed_open o.id (record w { draws = w.draws + 1 }) o open_code.found
          open_code.unconsumed,
      users-consume_code o.id w.db (env.clock (w.draws + 1)),
      save_found (record a { status = verified_status a })
          (record w { db = consumed; draws = w.draws + 1 + 1 }) a
          (subst (λ us. user_by_id a.id us ≡ some a)
            (sym (users-consume_code o.id w.db (env.clock (w.draws + 1)))) found_by_id),
    )

    draws_login :
        is_unverified a ≡ false → w.draws + 4 ≤ (verify_otp ring phone code device w).1.draws
    unfolding verify_otp issue_access_token
    draws_login n = ground (
      arith,
      h.valid,
      h.latest,
      h.fresh,
      h.right,
      h.known,
      h.not_suspended,
      n,
      mark_consumed_open o.id (record w { draws = w.draws + 1 }) o open_code.found
          open_code.unconsumed,
      users-consume_code o.id w.db (env.clock (w.draws + 1)),
    )

    draws_activate :
        is_unverified a ≡ true → w.draws + 7 ≤ (verify_otp ring phone code device w).1.draws
    unfolding verify_otp issue_access_token
    draws_activate n = ground (
      arith,
      h.valid,
      h.latest,
      h.fresh,
      h.right,
      h.known,
      n,
      mark_consumed_open o.id (record w { draws = w.draws + 1 }) o open_code.found
          open_code.unconsumed,
      users-consume_code o.id w.db (env.clock (w.draws + 1)),
      save_found (record a { status = verified_status a })
          (record w { db = consumed; draws = w.draws + 1 + 1 }) a
          (subst (λ us. user_by_id a.id us ≡ some a)
            (sym (users-consume_code o.id w.db (env.clock (w.draws + 1)))) found_by_id),
    )

    tokens_login :
        is_unverified a ≡ false
        → (verify_otp ring phone code device w).1.committed.refresh_tokens
          ≡ w.db.refresh_tokens
            ++ new_session
                (env.uuid4 (w.draws + 3))
                a.id
                (hash_refresh_token (opaque_token (w.draws + 2)))
                device
                (refresh_expiry (env.clock w.draws))
                (env.clock w.draws)
              ∷ []
    unfolding add_token consume_code
    tokens_login n =
        ap (λ db. db.refresh_tokens)
          (committed-login ring phone code device w h.valid o h.latest h.fresh open_code.found
            open_code.unconsumed a h.right h.known found_by_id n h.not_suspended)

    tokens_activate :
        is_unverified a ≡ true
        → (verify_otp ring phone code device w).1.committed.refresh_tokens
          ≡ w.db.refresh_tokens
            ++ new_session
                (env.uuid4 (w.draws + 5))
                a.id
                (hash_refresh_token (opaque_token (w.draws + 4)))
                device
                (refresh_expiry (env.clock w.draws))
                (env.clock w.draws)
              ∷ []
    unfolding add_token consume_code add_status_change put_user
    tokens_activate n =
        ap (λ db. db.refresh_tokens)
          (committed-activate ring phone code device w h.valid o h.latest h.fresh open_code.found
            open_code.unconsumed a h.right h.known found_by_id n)

    login-IsLoggedIn :
        is_unverified a ≡ false → IsLoggedIn a w (verify_otp ring phone code device w)
    unfolding issue_access_token
    login-IsLoggedIn n = record {
      reply = reply_with a (w.draws + 2) (w.draws + 4);
      returned = reply_login n;
      profile = refl;
      issued = record w { draws = w.draws + 4 };
      later = omega arith;
      done = draws_login n;
      access = refl;
      session = _;
      stored = tokens_login n;
      owner = refl;
      secret = refl;
      open_session = refl;
      expiry = refl;
    }

    activate-IsLoggedIn :
        is_unverified a ≡ true
        → IsLoggedIn
            (record a { status = verified_status a })
            w
            (verify_otp ring phone code device w)
    unfolding issue_access_token
    activate-IsLoggedIn n = record {
      reply = reply_with (record a { status = verified_status a }) (w.draws + 4) (w.draws + 7);
      returned = reply_activate n;
      profile = refl;
      issued = record w { draws = w.draws + 7 };
      later = omega arith;
      done = draws_activate n;
      access = refl;
      session = _;
      stored = tokens_activate n;
      owner = refl;
      secret = refl;
      open_session = refl;
      expiry = refl;
    }

    pub verify_otp-IsLoggedIn :
        IsLoggedIn (logged_in_account a) w (verify_otp ring phone code device w)
    verify_otp-IsLoggedIn = elim (Bool-cases (is_unverified a)) [
      | inl n ↦ rw n (activate-IsLoggedIn n)
      | inr n ↦ rw n (login-IsLoggedIn n)
    ]
