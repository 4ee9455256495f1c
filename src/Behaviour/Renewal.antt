-- ===== src/Behaviour/Renewal.antt =====
-- commands/refresh_token.py: a session that goes on.
use diddifree_id.Prelude.{
  ℕ, ◌+◌, ◌≤◌, ◌<◌, ◌≡◌, refl, ◌∙◌, ap, String, Option, true, none, some, arith, find_first, eq_iff,
  find_first-update_where, find_first-append_one,
}
use diddifree_id.Domain.Access.{UserStatus, is_session_allowed, role_value, status_value}
use diddifree_id.Domain.Entities.{RefreshToken}
use diddifree_id.Platform.Database.{Db}
use diddifree_id.Platform.Settings.{timedelta_minutes}
use diddifree_id.Platform.Environment.{Env, whole_second}
use diddifree_id.Platform.Monad.{World, ok}
use diddifree_id.Infra.Users.{user_by_id}
use diddifree_id.Infra.Tokens.{has_hash, is_open_token, set_revoked, add_token, close_token}
use diddifree_id.Infra.TokenService.{
  KeyRing, PublicKeyEntry, hash_refresh_token, opaque_token, refresh_expiry, issue_access_token,
}
use diddifree_id.Infra.Keys.Loading.{decode_access_token_issued}
use diddifree_id.Commands.Rows.{new_session}
use diddifree_id.Commands.RefreshAccessToken.{TokenPair, refresh_access_token, device_or}
use diddifree_id.Refinement.Tokens.{committed-rotate}
use diddifree_id.Refinement.Lookup.{user_by_id_self}
use diddifree_id.Server.Auth.{is_session_claim, get_current_user_id}
use diddifree_id.Behaviour.Refresh.{IsRefreshable}
use diddifree_id.Behaviour.Session.{
  IsIssuer, valid_later, decoded_not_empty, get_current_user_id_decoded,
}

session_claim_allowed :
    (s : UserStatus) → is_session_allowed s ≡ true → is_session_claim (some (status_value s)) ≡ true
unfolding status_value is_session_allowed
session_claim_allowed UserStatus.pending_verification h = absurd (ground (arith, h))
session_claim_allowed UserStatus.pending_kyc h = refl
session_claim_allowed UserStatus.active h = refl
session_claim_allowed UserStatus.suspended h = absurd (ground (arith, h))

-- A new token is found by its hash, if no other row has it.
found_new :
    (new : RefreshToken) (id t : ℕ) (db : Db)
    → find_first (has_hash new.token_hash) db.refresh_tokens ≡ none
    → find_first (has_hash new.token_hash) (add_token new (close_token id t db)).refresh_tokens
      ≡ some new
unfolding add_token close_token
found_new new id t db h = ground (
  arith,
  h,
  (eq_iff new.token_hash new.token_hash).1 refl,
  find_first-update_where (has_hash new.token_hash) (is_open_token id) (set_revoked t)
      db.refresh_tokens (λ a. refl),
  find_first-append_one (has_hash new.token_hash) (close_token id t db).refresh_tokens new,
)

users-rotate :
    (new : RefreshToken) (id t : ℕ) (db : Db)
    → (add_token new (close_token id t db)).users ≡ db.users
unfolding add_token close_token
users-rotate new id t db = refl

module _ ⦃env : Env⦄ (ring : KeyRing) (raw : String) (device : Option String) (w : World)
    (g : IsRefreshable raw w) where
  -- The instant at which the access token is signed.
  abbrev signing_world : World
  signing_world = record w { draws = w.draws + 4 }

  refresh_returned :
      (token : String)
      → (issue_access_token ring g.owner.id
          (role_value g.owner.role)
          (status_value g.owner.status)
          signing_world).0
        ≡ ok token
      → (refresh_access_token ring raw device w).0
        ≡ ok (record { access_token = token; refresh_token = opaque_token (w.draws + 2) })
  unfolding refresh_access_token issue_access_token
  refresh_returned token h = ground (arith, g.found, g.unrevoked, g.fresh, g.known, g.allowed, h)

  issued :
      (token : String) × ((issue_access_token ring g.owner.id
          (role_value g.owner.role)
          (status_value g.owner.status)
          signing_world).0
        ≡ ok token)
  unfolding issue_access_token
  issued = (_, refl)

  abbrev renewed_session : RefreshToken
  renewed_session =
      new_session (env.uuid4 (w.draws + 3)) g.owner.id
        (hash_refresh_token (opaque_token (w.draws + 2))) (device_or device g.token.device_info)
        (refresh_expiry (env.clock w.draws)) (env.clock w.draws)

  renewed-IsRefreshable :
      (v : World)
      → find_first (has_hash (hash_refresh_token (opaque_token (w.draws + 2)))) w.db.refresh_tokens
        ≡ none
      → v.db ≡ (refresh_access_token ring raw device w).1.committed
      → env.clock v.draws < refresh_expiry (env.clock w.draws)
      → IsRefreshable (opaque_token (w.draws + 2)) v
  renewed-IsRefreshable v unseen same valid =
      let rotated =
        committed-rotate ring raw device w g.token g.found g.owner g.unrevoked g.fresh g.known
          g.allowed in
      let tables = same ∙ rotated in
      record {
        token = renewed_session;
        owner = g.owner;
        found =
            ap
              (λ db.
                find_first (has_hash (hash_refresh_token (opaque_token (w.draws + 2))))
                  db.refresh_tokens)
              tables
            ∙ found_new renewed_session g.token.id (env.clock (w.draws + 1)) w.db unseen;
        unrevoked = refl;
        fresh = ground (arith, valid);
        known =
            ap (λ db. user_by_id g.owner.id db.users) tables
            ∙ ap (user_by_id g.owner.id)
                (users-rotate renewed_session g.token.id (env.clock (w.draws + 1)) w.db)
            ∙ user_by_id_self g.token.user_id w.db.users g.known;
        allowed = g.allowed;
      }

module _ ⦃env : Env⦄ (ring : KeyRing) (entry : PublicKeyEntry) (issuer : IsIssuer ring entry) where
  -- A refresh token that is stored, not revoked and not expired, of an account that may have a
  -- session, is refreshed: the reply comes, get_current_user_id gives the id of the account for
  -- its access token, from the instant at which it was signed and before the second begins in
  -- which a token signed at the start of the request expires, and its refresh token can be
  -- refreshed in turn on the tables that the refresh left, if it has not expired by then. No row
  -- has the hash of the new token yet, the clock does not run back from the start of the request
  -- to the signature, JWTs that the ring signs are read back as PyJWT does, from the second of
  -- their iat on and until the second of their exp, the empty text is no JWT, and the text of a
  -- UUID is read back.
  pub refresh_access_token-get_current_user_id :
      (raw : String) (device : Option String) (w v : World) (g : IsRefreshable raw w)
      → find_first (has_hash (hash_refresh_token (opaque_token (w.draws + 2)))) w.db.refresh_tokens
        ≡ none
      → v.db ≡ (refresh_access_token ring raw device w).1.committed
      → env.clock w.draws ≤ env.clock (w.draws + 4)
      → env.clock (w.draws + 4) ≤ env.clock v.draws
      → env.clock v.draws
        < whole_second
            (env.clock w.draws + timedelta_minutes env.settings.jwt_access_lifetime_minutes)
      → env.clock v.draws < refresh_expiry (env.clock w.draws)
      → (reply : TokenPair) × ((refresh_access_token ring raw device w).0 ≡ ok reply)
        × ((get_current_user_id ring (some reply.access_token) v).0 ≡ ok g.owner.id)
        × IsRefreshable reply.refresh_token v
  refresh_access_token-get_current_user_id raw device w v g unseen same forward after valid alive =
      let (token, signed) = issued ring raw device w g in
      let a = g.owner in
      let d =
        decode_access_token_issued ring ring entry a.id (role_value a.role) (status_value a.status)
          (signing_world ring raw device w g) v token issuer.listed issuer.pair signed after
          (valid_later _ _ _ _ forward valid) in
      (
        record { access_token = token; refresh_token = opaque_token (w.draws + 2) },
        refresh_returned ring raw device w g token signed,
        get_current_user_id_decoded ring a token v
            (decoded_not_empty ring token v issuer.no_token d) d (issuer.read_back a.id)
            (session_claim_allowed a.status g.allowed),
        renewed-IsRefreshable ring raw device w g v unseen same alive,
      )
