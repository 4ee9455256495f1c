-- ===== src/Server/Reads.antt =====
-- The routes that read: users_router.py, admin_router.py and jwks_router.py of
-- identity_app/modules/identity/presentation, each with its guard.
pub mod Effects
use diddifree_id.Prelude.{
  ℕ, ◌≡◌, refl, ◌∙◌, String, Bool, true, false, ◌&&◌, Option, none, some, List, leb, arith, inl,
  inr,
}
use diddifree_id.Platform.Environment.{Env}
use diddifree_id.Platform.Monad.{World, M, Result-cases, ok, err, ◌>>=◌, ◌>>◌, pure}
use diddifree_id.Application.Payloads.{Profile}
use diddifree_id.Infra.TokenService.{KeyRing}
use diddifree_id.Infra.Keys.{Loaded, Jwk, jwks}
use diddifree_id.Infra.Reads.{Filters, max_page_size}
use diddifree_id.Queries.GetUser.{get_user_by_id, get_current_user_profile}
use diddifree_id.Queries.ListUsers.{UserList, list_users, backfill}
use diddifree_id.Server.Auth.{get_current_user_id, require_admin, require_service_or_admin}

-- A request, as far as the handler reads it.
pub data ReadRequest : Type 0 where
  me : (credentials : Option String) → ReadRequest
  user_list_since :
      (service_key credentials : Option String) → (since page page_size : ℕ) → ReadRequest
  user_of : (service_key credentials : Option String) → (user_id : ℕ) → ReadRequest
  user_list :
      (credentials : Option String)
      → (role status : Option String) → (pending_kyc : Bool) → (page page_size : ℕ) → ReadRequest
  key_document : ReadRequest

pub data ReadReply : Type 0 where
  profile : Profile → ReadReply
  users : UserList → ReadReply
  keys : Loaded (List Jwk) → ReadReply

abbrev pub admin_filters : Option String → Option String → Bool → Filters
admin_filters role status pending_kyc = record {
  role = role;
  status = status;
  pending_kyc = pending_kyc;
  created_since = none;
}

module _ ⦃env : Env⦄ (ring : KeyRing) where
  unfoldable pub read_route : ReadRequest → M ReadReply
  unfolding get_current_user_id require_service_or_admin require_admin get_current_user_profile
      get_user_by_id backfill list_users jwks
  read_route (me credentials) = do
    user_id ← get_current_user_id ring credentials
    p ← get_current_user_profile user_id
    pure (profile p)
  read_route (user_list_since key credentials since page page_size) = do
    require_service_or_admin ring key credentials
    l ← backfill since page page_size
    pure (users l)
  read_route (user_of key credentials user_id) = do
    require_service_or_admin ring key credentials
    p ← get_user_by_id user_id
    pure (profile p)
  read_route (user_list credentials role status pending page page_size) = do
    require_admin ring credentials
    l ← list_users (admin_filters role status pending) page page_size
    pure (users l)
  read_route key_document = pure (keys (jwks ring))
