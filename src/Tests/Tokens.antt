-- ===== src/Tests/Tokens.antt =====
-- The theorems on keys, tokens and their verification at work.
use diddifree_id.Prelude.{
  ◌≡◌, ◌≢◌, refl, ap, String, false, none, some, List, [], ◌∷◌, arith, find_first, str_eq, eq_iff,
}
use diddifree_id.Platform.Settings.{Settings, default_settings}
use diddifree_id.Platform.Monad.{World, ok, refusal, ErrorCode, no_details}
use diddifree_id.Domain.Access.{is_session_allowed}
use diddifree_id.Application.Validation.{strip_spaces, is_e164, all_decimal}
use diddifree_id.Infra.Otps.{latest_active}
use diddifree_id.Infra.Security.{verify_otp_code}
use diddifree_id.Domain.Entities.{is_expired}
use diddifree_id.Infra.TokenService.{
  KeyRing, hash_refresh_token, refresh_expiry, issue_access_token, decode_access_token,
}
use diddifree_id.Infra.Keys.{Jwk, jwk_of, jwks, get_key_ring, to_jwk}
use diddifree_id.Infra.Keys.Loading.{restarted, decode_access_token_rotated}
use diddifree_id.Commands.VerifyOtp.{Authenticated, verify_otp}
use diddifree_id.Server.Auth.{get_current_user_id, require_admin, require_service_or_admin}
use diddifree_id.Scripts.ServiceToken.{issue, issue_authorized}
use diddifree_id.Behaviour.Login.{IsRightCode}
use diddifree_id.Behaviour.Session.{IsIssuer, verify_otp-get_current_user_id}
use diddifree_id.Contract.Verifier.{
  Network, Verifier, VerifiedIdentity, new_verifier, verify, judge, find_key,
}
use diddifree_id.Contract.Traffic.{IsBacked, verify-IsBacked, IsTraffic, verify-IsTraffic}
use diddifree_id.Contract.Agreement.{module_view, verify_agrees}
use diddifree_id.Tests.Demo.{
  demo, ring, start, ama, kofi, open_session, sent_code, id_text, length-id_text,
}
use diddifree_id.Behaviour.Refresh.{IsRefreshable}
use diddifree_id.Behaviour.Renewal.{refresh_access_token-get_current_user_id}
use diddifree_id.Commands.RefreshAccessToken.{TokenPair, refresh_access_token}
use diddifree_id.Tests.Witnesses.{tables-IsKeyed}
use diddifree_id.Tests.Signing.{framed, unframed, read_kid, signing, signing-IsKeyPair}

-- A module with the published keys of the demonstration service.
abbrev document : List Jwk
document = jwk_of ⦃env = demo⦄ "kid" (6, 65537) ∷ []

abbrev network : Network
network = record {
  fetch = λ n. some document;
  key_of = λ jwk. some "public";
  monotonic = λ n. 0;
  wall_clock = λ n. 1000;
}

abbrev module_state : Verifier
module_state = new_verifier demo.settings.jwt_issuer 3600

verify_agrees_example :
    (verify ⦃net = network⦄ "admin" module_state).0
    ≡ module_view module_state (decode_access_token ring "admin" start).0
unfolding jwks find_first to_jwk
verify_agrees_example =
    verify_agrees ⦃net = network⦄ ring document module_state refl (λ n. refl) (refl, tt)
      ((_, (refl, refl)), tt) refl "admin" start refl refl (λ n. refl)

abbrev root_identity : VerifiedIdentity
root_identity = record { user_id = 3; role = "admin"; status = "active" }

verify-IsBacked_example : IsBacked ⦃net = network⦄ "admin" module_state root_identity
unfolding verify find_key judge
verify-IsBacked_example =
    verify-IsBacked ⦃net = network⦄ "admin" module_state {id = root_identity} refl

verify-IsTraffic_example :
    IsTraffic ⦃net = network⦄ "admin" module_state
      (verify ⦃net = network⦄ "admin" module_state).1.fetches
verify-IsTraffic_example = verify-IsTraffic ⦃net = network⦄ "admin" module_state

-- The keys of the signing service, before and after a rotation.
abbrev old_ring : KeyRing
old_ring = record {
  active_kid = default_settings.jwt_active_kid;
  private_pem = default_settings.jwt_private_key_path;
  public_keys =
      (record { kid = default_settings.jwt_active_kid; pem = default_settings.jwt_public_key_path })
      ∷ [];
}

abbrev new_settings : Settings
new_settings = record default_settings {
  jwt_active_kid = "next";
  jwt_private_key_path = "next_private.pem";
  jwt_public_key_path = "next_public.pem";
  jwt_previous_kid = some default_settings.jwt_active_kid;
  jwt_previous_public_key_path = some default_settings.jwt_public_key_path;
}

abbrev new_ring : KeyRing
new_ring = record {
  active_kid = "next";
  private_pem = "next_private.pem";
  public_keys =
      (record { kid = "next"; pem = "next_public.pem" })
      ∷ (record {
        kid = default_settings.jwt_active_kid;
        pem = default_settings.jwt_public_key_path;
      })
      ∷ [];
}

abbrev ama_token : String
ama_token = framed default_settings.jwt_active_kid (framed "i" (framed "user" (framed "active" "")))

differ : (s t : String) → str_eq s t ≡ false → s ≢ t
differ s t f e = ground (arith, f, e, eq_iff s t)

decode_access_token_rotated_example :
    (decode_access_token ⦃env = restarted signing new_settings⦄ new_ring ama_token start).0
    ≡ ok (record { sub = some "i"; role = some "user"; status = some "active" })
unfolding get_key_ring issue_access_token id_text
decode_access_token_rotated_example =
    decode_access_token_rotated ⦃env = signing⦄ new_settings old_ring new_ring 1 "user" "active"
      ama_token start start refl refl refl refl refl refl
      (differ "next" default_settings.jwt_active_kid refl)
      (λ public e. signing-IsKeyPair old_ring.private_pem public) refl (omega arith) (omega arith)

signing-IsIssuer :
    IsIssuer ⦃env = signing⦄ old_ring
      (record { kid = default_settings.jwt_active_kid; pem = default_settings.jwt_public_key_path })
unfolding find_first unframed read_kid
signing-IsIssuer = record {
  listed = refl;
  pair = signing-IsKeyPair old_ring.private_pem default_settings.jwt_public_key_path;
  no_token = refl;
  read_back = λ i. ap some (length-id_text i);
}

ama-IsRightCode : IsRightCode ⦃env = signing⦄ "+22890000001" "123456" start sent_code ama
unfolding is_e164 strip_spaces latest_active is_expired verify_otp_code find_first all_decimal
ama-IsRightCode = record {
  valid = refl;
  latest = refl;
  fresh = refl;
  right = refl;
  known = refl;
  not_suspended = refl;
}

-- After the request.
abbrev afterwards : World
afterwards = (verify_otp ⦃env = signing⦄ old_ring "+22890000001" "123456" none start).1

verify_otp-get_current_user_id_example :
    (reply : Authenticated) × (((verify_otp ⦃env = signing⦄ old_ring "+22890000001" "123456" none
          start).0
        ≡ ok reply)
      × ((get_current_user_id ⦃env = signing⦄ old_ring (some reply.access_token) afterwards).0
          ≡ ok 1))
verify_otp-get_current_user_id_example =
    verify_otp-get_current_user_id ⦃env = signing⦄ old_ring
      (record { kid = default_settings.jwt_active_kid; pem = default_settings.jwt_public_key_path })
      signing-IsIssuer "+22890000001" "123456" none start afterwards sent_code ama tables-IsKeyed
      ama-IsRightCode (λ m n h k. omega arith) (omega arith) (omega arith)

abbrev kofi_refreshable : IsRefreshable ⦃env = signing⦄ "opaque_old" start
unfolding find_first is_session_allowed hash_refresh_token
kofi_refreshable = record {
  token = open_session;
  owner = kofi;
  found = refl;
  unrevoked = refl;
  fresh = refl;
  known = refl;
  allowed = refl;
}

-- The tables after the refresh.
abbrev renewed : World
renewed = record start {
  db = (refresh_access_token ⦃env = signing⦄ old_ring "opaque_old" none start).1.committed;
  draws = 100;
}

refresh_access_token-get_current_user_id_example :
    (reply : TokenPair) × ((refresh_access_token ⦃env = signing⦄ old_ring "opaque_old" none start).0
      ≡ ok reply)
    × ((get_current_user_id ⦃env = signing⦄ old_ring (some reply.access_token) renewed).0 ≡ ok 2)
    × IsRefreshable ⦃env = signing⦄ reply.refresh_token renewed
unfolding find_first hash_refresh_token refresh_expiry is_session_allowed
refresh_access_token-get_current_user_id_example =
    refresh_access_token-get_current_user_id ⦃env = signing⦄ old_ring
      (record { kid = default_settings.jwt_active_kid; pem = default_settings.jwt_public_key_path })
      signing-IsIssuer "opaque_old" none start renewed kofi_refreshable refl refl (omega arith)
      (omega arith) (omega arith) (omega arith)

abbrev wallet_token : String
wallet_token =
    framed default_settings.jwt_active_kid
      (framed "iiiiiii" (framed "service" (framed "active" "")))

issue_authorized_example :
    ((require_service_or_admin ⦃env = signing⦄ old_ring none (some wallet_token) start).0 ≡ ok none)
    × (((get_current_user_id ⦃env = signing⦄ old_ring (some wallet_token) start).0
          ≡ refusal 403 ErrorCode.service_token_not_allowed no_details)
        × ((require_admin ⦃env = signing⦄ old_ring (some wallet_token) start).0
            ≡ refusal 403 ErrorCode.service_token_not_allowed no_details))
unfolding get_key_ring issue id_text
issue_authorized_example =
    issue_authorized ⦃env = signing⦄ old_ring "diddi-wallet" wallet_token 24 1000 start refl refl
      (λ public e. signing-IsKeyPair old_ring.private_pem public) (omega arith) (omega arith)
      (differ wallet_token "" refl)
