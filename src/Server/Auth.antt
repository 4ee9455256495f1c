-- ===== src/Server/Auth.antt =====
-- identity_app/core/auth_deps.py: who makes a request. `credentials` is the bearer token.
use diddifree_id.Prelude.{
  ℕ, String, Bool, ◌||◌, not, Option, none, some, List, [], ◌∷◌, str_eq, if◌then◌else◌,
}
use diddifree_id.Domain.Access.{UserRole, UserStatus, role_eq, status_eq, status_value}
use diddifree_id.Domain.Entities.{User}
use diddifree_id.Platform.Environment.{Env, DecodedClaims}
use diddifree_id.Platform.Monad.{
  M, ◌>>=◌, ◌>>◌, pure, raise, raise_if, or_raise, no_details, token_missing, token_invalid,
  service_token_not_allowed, user_suspended, user_not_verified, forbidden_role, service_key_invalid,
}
use diddifree_id.Infra.Users.{find_by_id}
use diddifree_id.Infra.TokenService.{KeyRing, service_role, decode_access_token}

-- `claims.get(...) == text`
abbrev pub claim_eq : Option String → String → Bool
claim_eq none s = Bool.false
claim_eq (some c) s = str_eq c s

-- `status in {s.value for s in SESSION_ALLOWED_STATUSES}`
abbrev pub is_session_claim : Option String → Bool
is_session_claim s =
    claim_eq s (status_value UserStatus.active) || claim_eq s (status_value UserStatus.pending_kyc)

-- `x_service_key in keys`
key_in : String → List String → Bool
key_in k [] = Bool.false
key_in k (x ∷ xs) = str_eq x k || key_in k xs

module _ ⦃env : Env⦄ where
  unfoldable pub get_claims : KeyRing → Option String → M DecodedClaims
  get_claims ring none = raise 401 token_missing no_details
  get_claims ring (some token) =
      if str_eq token "" then raise 401 token_missing no_details else decode_access_token ring token

  -- `UUID(claims["sub"])`, whether the claim is missing or malformed.
  abbrev pub subject : DecodedClaims → Option ℕ
  subject claims = elim claims.sub [ none ↦ none | some s ↦ env.uuid_of_text s ]

  -- The status claim of a caller that may not have a session.
  refuse_status : Option String → M Unit
  refuse_status status =
      if claim_eq status (status_value UserStatus.suspended)
      then raise 403 user_suspended no_details
      else raise 403 user_not_verified no_details

  unfoldable pub get_current_user_id : KeyRing → Option String → M ℕ
  unfolding get_claims refuse_status
  get_current_user_id ring credentials = do
    claims ← get_claims ring credentials
    raise_if (claim_eq claims.role service_role) (raise 403 service_token_not_allowed no_details)
    raise_if (not (is_session_claim claims.status)) (refuse_status claims.status)
    or_raise (subject claims) (raise 401 token_invalid no_details)

  -- The account is read again: what the token says of its role is not enough.
  unfoldable pub read_admin : ℕ → M User
  unfolding find_by_id
  read_admin user_id = do
    found ← find_by_id user_id
    u ← or_raise found (raise 401 token_invalid no_details)
    raise_if (not (status_eq u.status UserStatus.active)) (raise 403 user_suspended no_details)
    raise_if (not (role_eq u.role UserRole.admin)) (raise 403 forbidden_role no_details)
    pure u

  unfoldable pub require_admin : KeyRing → Option String → M User
  unfolding get_current_user_id read_admin
  require_admin ring credentials = do
    user_id ← get_current_user_id ring credentials
    read_admin user_id

  -- A service that names itself by a key.
  check_service_key : String → M (Option ℕ)
  unfolding key_in
  check_service_key key =
      if key_in key env.settings.service_api_key_set
      then pure none
      else raise 401 service_key_invalid no_details

  -- A service or an admin that names itself by a token.
  check_caller : KeyRing → Option String → M (Option ℕ)
  unfolding get_claims read_admin
  check_caller ring credentials = do
    claims ← get_claims ring credentials
    if claim_eq claims.role service_role then pure none else (do
      user_id ← or_raise (subject claims) (raise 401 token_invalid no_details)
      u ← read_admin user_id
      pure (some u.id))

  unfoldable pub require_service_or_admin : KeyRing → Option String → Option String → M (Option ℕ)
  unfolding check_service_key check_caller
  require_service_or_admin ring (some key) credentials = check_service_key key
  require_service_or_admin ring none credentials = check_caller ring credentials
