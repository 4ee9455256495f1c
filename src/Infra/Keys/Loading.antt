-- ===== src/Infra/Keys/Loading.antt =====
-- Key rings that load, their rotation, and the tokens that they sign and verify.
use diddifree_id.Prelude.{
  ℕ, ◌+◌, ◌≤◌, ◌<◌, ◌≡◌, ◌≢◌, refl, ◌∙◌, ap, String, true, false, none, some, [], ◌∷◌, arith,
  find_first, str_eq, eq_iff, Option-cases, inl, inr,
}
use diddifree_id.Platform.Settings.{Settings, timedelta_minutes}
use diddifree_id.Platform.Environment.{Env, Claims, decoded, whole_second}
use diddifree_id.Platform.Monad.{World, ok}
use diddifree_id.Infra.TokenService.{
  KeyRing, PublicKeyEntry, has_kid, issue_access_token, decode_access_token,
}
use diddifree_id.Infra.Keys.{half_configured_rotation, loaded, refused, get_key_ring, is_set}

-- What PyJWT does with a token that a private key signed and the public key of the pair verifies:
-- it reads the dates as whole seconds, and refuses a token before its `iat` and from its `exp` on.
pub record IsKeyPair ⦃env : Env⦄ (private public : String) : Type 0 where
  pub header :
      (c : Claims) (kid : String) → env.jwt_kid (env.jwt_encode c private kid) ≡ some (some kid)
  pub verified :
      (t : ℕ) (c : Claims) (kid : String)
      → whole_second c.iat ≤ t
      → t < whole_second c.exp
      → env.jwt_decode t (env.jwt_encode c private kid) public c.iss
        ≡ decoded (record { sub = some c.sub; role = some c.role; status = some c.status })

pub whole_second_lem : (s t : ℕ) → s ≤ t → whole_second s ≤ t
whole_second_lem s t h = omega (arith, h)

module _ ⦃env : Env⦄ where
  get_key_ring_half :
      (private public : String)
      → env.read_file env.settings.jwt_private_key_path ≡ some private
      → env.read_file env.settings.jwt_public_key_path ≡ some public
      → is_set env.settings.jwt_previous_public_key_path ≢ is_set env.settings.jwt_previous_kid
      → get_key_ring ≡ refused half_configured_rotation
  unfolding get_key_ring
  get_key_ring_half private public a b h = ground (arith, a, b, h)

  -- The active key of a ring that loaded.
  pub get_key_ring_active :
      (ring : KeyRing)
      → get_key_ring ≡ loaded ring
      → (public : String) × ((env.read_file env.settings.jwt_public_key_path ≡ some public)
          × (find_first (has_kid (some ring.active_kid)) ring.public_keys
              ≡ some (record { kid = ring.active_kid; pem = public })))
  unfolding get_key_ring find_first
  get_key_ring_active ring h =
      elim (Option-cases (env.read_file env.settings.jwt_public_key_path)) [
        | inl e ↦ absurd (ground (arith, h, e))
        | inr (p, e) ↦
            let r = eq_iff env.settings.jwt_active_kid env.settings.jwt_active_kid in
            (p, (e, ground (arith, h, e, r)))
      ]

  -- The previous key of a ring that loaded during a rotation.
  get_key_ring_previous :
      (ring : KeyRing) (kid path public : String)
      → get_key_ring ≡ loaded ring
      → env.settings.jwt_previous_kid ≡ some kid
      → env.settings.jwt_previous_public_key_path ≡ some path
      → env.read_file path ≡ some public
      → is_set (some kid) ≡ true
      → env.settings.jwt_active_kid ≢ kid
      → find_first (has_kid (some kid)) ring.public_keys ≡ some (record { kid = kid; pem = public })
  unfolding get_key_ring find_first
  get_key_ring_previous ring kid path public h k p f set ne =
      elim (Option-cases (env.read_file env.settings.jwt_public_key_path)) [
        | inl e ↦ absurd (ground (arith, h, e))
        | inr (q, e) ↦
            let rest : ring.public_keys
                ≡ (record { kid = env.settings.jwt_active_kid; pem = q })
                  ∷ (record { kid = kid; pem = public })
                  ∷ [] =
              ground (arith, h, k, p, f, e, set) in
            let miss : str_eq env.settings.jwt_active_kid kid ≡ false =
              ground (arith, ne, eq_iff env.settings.jwt_active_kid kid) in
            let hit : str_eq kid kid ≡ true = (eq_iff kid kid).1 refl in
            ground (arith, rest, miss, hit)
      ]

  -- Any ring that holds the key of the pair under the kid of the token accepts it.
  pub decode_access_token_issued :
      (ring other : KeyRing) (entry : PublicKeyEntry) (id : ℕ) (role status : String) (w v : World)
      (token : String)
      → find_first (has_kid (some ring.active_kid)) other.public_keys ≡ some entry
      → IsKeyPair ring.private_pem entry.pem
      → (issue_access_token ring id role status w).0 ≡ ok token
      → env.clock w.draws ≤ env.clock v.draws
      → env.clock v.draws
        < whole_second
            (env.clock w.draws + timedelta_minutes env.settings.jwt_access_lifetime_minutes)
      → (decode_access_token other token v).0
        ≡ ok (record { sub = some (env.uuid_text id); role = some role; status = some status })
  unfolding issue_access_token decode_access_token
  decode_access_token_issued ring other entry id role status w v token f pair i le lt =
      let c : Claims = record {
        sub = env.uuid_text id;
        role = role;
        status = status;
        iss = env.settings.jwt_issuer;
        iat = env.clock w.draws;
        exp = env.clock w.draws + timedelta_minutes env.settings.jwt_access_lifetime_minutes;
        service = none;
      } in
      ground (
        arith,
        f,
        i,
        pair.header c ring.active_kid,
        pair.verified (env.clock v.draws) c ring.active_kid (whole_second_lem _ _ le) lt,
      )

-- A change of the settings, with the service started anew.
abbrev pub restarted : Env → Settings → Env
restarted env settings = record env { settings = settings }

module _ ⦃env : Env⦄ where
  -- Of the settings, verification reads the issuer only.
  same_issuer :
      (settings : Settings) (ring : KeyRing) (token : String) (v : World)
      → settings.jwt_issuer ≡ env.settings.jwt_issuer
      → decode_access_token ⦃env = restarted env settings⦄ ring token v
        ≡ decode_access_token ring token v
  unfolding decode_access_token
  same_issuer settings ring token v iss = ground (arith, iss)

  -- An access token that the service issued before a rotation is accepted after it, from the
  -- instant at which it was signed until the second begins in which it expires: the service
  -- started anew with the key of before as the previous one, under its kid, with another active
  -- kid and the same issuer, decodes it to the claims that it was issued with. PyJWT reads back
  -- with the public key file what the private key of before signed, from the second of its iat on
  -- and until the second of its exp.
  pub decode_access_token_rotated :
      (settings : Settings) (old new : KeyRing) (id : ℕ) (role status token : String) (w v : World)
      → get_key_ring ≡ loaded old
      → get_key_ring ⦃env = restarted env settings⦄ ≡ loaded new
      → settings.jwt_previous_kid ≡ some old.active_kid
      → settings.jwt_previous_public_key_path ≡ some env.settings.jwt_public_key_path
      → settings.jwt_issuer ≡ env.settings.jwt_issuer
      → is_set (some old.active_kid) ≡ true
      → settings.jwt_active_kid ≢ old.active_kid
      → ((public : String)
          → env.read_file env.settings.jwt_public_key_path ≡ some public
          → IsKeyPair old.private_pem public)
      → (issue_access_token old id role status w).0 ≡ ok token
      → env.clock w.draws ≤ env.clock v.draws
      → env.clock v.draws
        < whole_second
            (env.clock w.draws + timedelta_minutes env.settings.jwt_access_lifetime_minutes)
      → (decode_access_token ⦃env = restarted env settings⦄ new token v).0
        ≡ ok (record { sub = some (env.uuid_text id); role = some role; status = some status })
  decode_access_token_rotated settings old new id role status token w v a b k p iss set ne pair i le
        lt =
      let (public, (f, _)) = get_key_ring_active old a in
      let g =
        get_key_ring_previous ⦃env = restarted env settings⦄ new old.active_kid
          env.settings.jwt_public_key_path public b k p f set ne in
      let h =
        decode_access_token_issued old new (record { kid = old.active_kid; pem = public }) id role
          status w v token g (pair public f) i le lt in
      ap (λ x. x.0) (same_issuer settings new token v iss) ∙ h
