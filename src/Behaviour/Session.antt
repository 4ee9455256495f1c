-- ===== src/Behaviour/Session.antt =====
-- A login and what its access token is good for: commands/verify_otp.py with core/auth_deps.py.
use diddifree_id.Prelude.{
  ℕ, ◌+◌, ◌≤◌, ◌<◌, ◌≡◌, refl, ◌∙◌, ap, String, Option, true, false, none, some, arith, find_first,
  Bool-cases, inl, inr, str_eq, eq_iff,
}
use diddifree_id.Domain.Access.{UserRole, UserStatus, status_eq, role_value, status_value}
use diddifree_id.Domain.Entities.{User, OtpCode}
use diddifree_id.Platform.Settings.{timedelta_minutes}
use diddifree_id.Platform.Environment.{Env, DecodedClaims, whole_second}
use diddifree_id.Platform.Monad.{World, ok}
use diddifree_id.Infra.TokenService.{KeyRing, PublicKeyEntry, has_kid, decode_access_token}
use diddifree_id.Infra.Keys.Loading.{IsKeyPair, decode_access_token_issued}
use diddifree_id.Commands.VerifyOtp.{Authenticated, verify_otp}
use diddifree_id.Lifecycle.Keyed.{IsKeyed}
use diddifree_id.Server.Auth.{is_session_claim, get_current_user_id}
use diddifree_id.Behaviour.Login.{IsRightCode, logged_in_account, verify_otp-IsLoggedIn}

-- What the service needs of the outside code to read back its own tokens.
pub record IsIssuer ⦃env : Env⦄ (ring : KeyRing) (entry : PublicKeyEntry) : Type 0 where
  pub listed : find_first (has_kid (some ring.active_kid)) ring.public_keys ≡ some entry
  pub pair : IsKeyPair ring.private_pem entry.pem
  pub no_token : env.jwt_kid "" ≡ none
  pub read_back : (i : ℕ) → env.uuid_of_text (env.uuid_text i) ≡ some i

role_is_no_service : (r : UserRole) → str_eq (role_value r) "service" ≡ false
unfolding role_value
role_is_no_service UserRole.user = refl
role_is_no_service _ = refl

module _ ⦃env : Env⦄ where
  -- A text that decodes is not empty.
  pub decoded_not_empty :
      (ring : KeyRing) (token : String) (v : World) {c : DecodedClaims}
      → env.jwt_kid "" ≡ none
      → (decode_access_token ring token v).0 ≡ ok c
      → str_eq token "" ≡ false
  unfolding decode_access_token
  decoded_not_empty ring token v empty d = elim (Bool-cases (str_eq token "")) [
    | inr q ↦ q
    | inl q ↦
        let e : env.jwt_kid token ≡ none = ap env.jwt_kid ((eq_iff token "").0 q) ∙ empty in
        absurd (ground (arith, d, e))
  ]

  -- A token with the claims of an account that may have a session.
  pub get_current_user_id_decoded :
      (ring : KeyRing) (a : User) (token : String) (v : World)
      → str_eq token "" ≡ false
      → (decode_access_token ring token v).0
        ≡ ok (record {
          sub = some (env.uuid_text a.id);
          role = some (role_value a.role);
          status = some (status_value a.status);
        })
      → env.uuid_of_text (env.uuid_text a.id) ≡ some a.id
      → is_session_claim (some (status_value a.status)) ≡ true
      → (get_current_user_id ring (some token) v).0 ≡ ok a.id
  unfolding get_current_user_id
  get_current_user_id_decoded ring a token v e d u s =
      ground (arith, e, d, u, s, role_is_no_service a.role)

session_claim :
    (s : UserStatus)
    → status_eq s UserStatus.pending_verification ≡ false
    → status_eq s UserStatus.suspended ≡ false
    → is_session_claim (some (status_value s)) ≡ true
unfolding status_value
session_claim UserStatus.pending_verification n h = absurd (ground (arith, n))
session_claim UserStatus.pending_kyc n h = refl
session_claim UserStatus.active n h = refl
session_claim UserStatus.suspended n h = absurd (ground (arith, h))

-- An account after its login may have a session.
session_after :
    (a : User)
    → status_eq a.status UserStatus.suspended ≡ false
    → is_session_claim (some (status_value (logged_in_account a).status)) ≡ true
session_after a h =
    session_claim (logged_in_account a).status (ground (arith, h)) (ground (arith, h))

-- A token that is signed later expires no earlier.
pub valid_later :
    (s t lifetime v : ℕ) → s ≤ t → v < whole_second (s + lifetime) → v < whole_second (t + lifetime)
valid_later s t lifetime v h k = omega (arith, h, k)

module _ ⦃env : Env⦄ (ring : KeyRing) (entry : PublicKeyEntry) (issuer : IsIssuer ring entry) where
  -- If an account that is not suspended sends the right code of its number, verify_otp returns,
  -- and get_current_user_id gives the id of that account for the access token of the reply, at
  -- any instant after the request and before the second begins in which a token signed at its
  -- start expires. Ids are keys, the clock does not run back from the start of the request on,
  -- JWTs that the ring signs are read back as PyJWT does, from the second of their iat on and
  -- until the second of their exp, the empty text is no JWT, and the text of a UUID is read back.
  pub verify_otp-get_current_user_id :
      (phone code : String) (device : Option String) (w v : World) (o : OtpCode) (a : User)
      → IsKeyed w.db
      → IsRightCode phone code w o a
      → ((m n : ℕ) → w.draws ≤ m → m ≤ n → env.clock m ≤ env.clock n)
      → (verify_otp ring phone code device w).1.draws ≤ v.draws
      → env.clock v.draws
        < whole_second
            (env.clock w.draws + timedelta_minutes env.settings.jwt_access_lifetime_minutes)
      → (reply : Authenticated) × (((verify_otp ring phone code device w).0 ≡ ok reply)
          × ((get_current_user_id ring (some reply.access_token) v).0 ≡ ok a.id))
  verify_otp-get_current_user_id phone code device w v o a k h forward after valid =
      let l = verify_otp-IsLoggedIn ring phone code device w o a h k in
      let u = logged_in_account a in
      let d =
        decode_access_token_issued ring ring entry u.id (role_value u.role) (status_value u.status)
          l.issued v l.reply.access_token issuer.listed issuer.pair l.access
          (forward l.issued.draws v.draws l.later (omega (arith, l.done, after)))
          (valid_later _ _ _ _ (forward w.draws l.issued.draws (omega arith) l.later) valid) in
      let same : u.id ≡ a.id = ground arith in
      (
        l.reply,
        (
          l.returned,
          get_current_user_id_decoded ring u l.reply.access_token v
                (decoded_not_empty ring l.reply.access_token v issuer.no_token d) d
                (issuer.read_back u.id) (session_after a h.not_suspended)
              ∙ ap ok same,
        ),
      )
