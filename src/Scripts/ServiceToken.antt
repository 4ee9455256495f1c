-- ===== src/Scripts/ServiceToken.antt =====
-- scripts/issue_service_token.py: `issue`, and what the service makes of its tokens.
use Prim.Native.String.{◌++◌ as str_append}
use diddifree_id.Prelude.{
  ℕ, ◌+◌, ◌*◌, ◌≤◌, ◌<◌, ◌≡◌, ◌≢◌, refl, String, Bool, false, none, some, str_eq, arith, eq_iff,
}
use diddifree_id.Platform.Environment.{Env, Claims, whole_second}
use diddifree_id.Platform.Monad.{World, ErrorCode, refusal, ok, no_details}
use diddifree_id.Infra.TokenService.{KeyRing, service_role, decode_access_token}
use diddifree_id.Infra.Keys.{Loaded, loaded, get_key_ring, ◌>>=◌}
use diddifree_id.Infra.Keys.Loading.{IsKeyPair, whole_second_lem, get_key_ring_active}
use diddifree_id.Server.Auth.{get_current_user_id, require_admin, require_service_or_admin}

abbrev timedelta_hours : ℕ → ℕ
timedelta_hours n = n * 3600000000

module _ ⦃env : Env⦄ where
  abbrev pub service_claims : String → ℕ → ℕ → Claims
  service_claims service_name hours now = record {
    sub = env.uuid_text (env.uuid5 (str_append "urn:diddifree:service:" service_name));
    role = service_role;
    status = "active";
    iss = env.settings.jwt_issuer;
    iat = now;
    exp = now + timedelta_hours hours;
    service = some service_name;
  }

  -- `now` is the reading of the clock.
  unfoldable pub issue : String → ℕ → ℕ → Loaded String
  unfolding get_key_ring
  issue service_name hours now = do
    key_ring ← get_key_ring
    loaded (
        env.jwt_encode (service_claims service_name hours now) key_ring.private_pem
          key_ring.active_kid)

  module _ (ring : KeyRing) (service_name token : String) (hours now : ℕ) (w : World)
      (started : get_key_ring ≡ loaded ring) (issued : issue service_name hours now ≡ loaded token)
      (pair : (public : String)
        → env.read_file env.settings.jwt_public_key_path ≡ some public
        → IsKeyPair ring.private_pem public)
      (since : now ≤ env.clock w.draws)
      (valid : env.clock w.draws < whole_second (now + timedelta_hours hours)) where
    decode_access_token-issue :
        (decode_access_token ring token w).0
        ≡ ok (record {
          sub = some (env.uuid_text (env.uuid5 (str_append "urn:diddifree:service:" service_name)));
          role = some service_role;
          status = some "active";
        })
    unfolding issue decode_access_token
    decode_access_token-issue =
        let (public, (f, g)) = get_key_ring_active ring started in
        let c = service_claims service_name hours now in
        let p = pair public f in
        ground (
          arith,
          started,
          issued,
          g,
          p.header c ring.active_kid,
          p.verified (env.clock w.draws) c ring.active_kid (whole_second_lem _ _ since) valid,
        )

    -- A service token that the script issued passes require_service_or_admin as a service, and
    -- both get_current_user_id and require_admin answer it with 403 SERVICE_TOKEN_NOT_ALLOWED,
    -- from the instant at which it was issued until the second begins in which it expires. PyJWT
    -- reads back with the public key file what the private key signed, from the second of its iat
    -- on and until the second of its exp, and the token is not empty.
    pub issue_authorized :
        token ≢ ""
        → ((require_service_or_admin ring none (some token) w).0 ≡ ok none)
          × (((get_current_user_id ring (some token) w).0
                ≡ refusal 403 ErrorCode.service_token_not_allowed no_details)
              × ((require_admin ring (some token) w).0
                  ≡ refusal 403 ErrorCode.service_token_not_allowed no_details))
    unfolding require_service_or_admin get_current_user_id require_admin
    issue_authorized ne =
        let s : str_eq token "" ≡ false = ground (arith, ne, eq_iff token "") in
        let d = decode_access_token-issue in
        let r : str_eq "service" "service" ≡ Bool.true = (eq_iff "service" "service").1 refl in
        (ground (arith, s, d, r), (ground (arith, s, d, r), ground (arith, s, d, r)))
