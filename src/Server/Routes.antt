-- ===== src/Server/Routes.antt =====
-- The routes that write: identity_app/modules/identity/presentation, each with the guard that it
-- depends on and the session of its request. A reply is dropped: only its effects are kept.
use diddifree_id.Prelude.{ℕ, String, Bool, Option, some, List, [], ◌∷◌}
use diddifree_id.Platform.Environment.{Env}
use diddifree_id.Platform.Monad.{World, M, ◌>>=◌, ◌>>◌, pure}
use diddifree_id.Platform.Session.{get_session}
use diddifree_id.Infra.TokenService.{KeyRing}
use diddifree_id.Commands.RegisterUser.{register_user}
use diddifree_id.Commands.RequestOtp.{request_otp}
use diddifree_id.Commands.VerifyOtp.{verify_otp}
use diddifree_id.Commands.RefreshAccessToken.{refresh_access_token}
use diddifree_id.Commands.Logout.{logout}
use diddifree_id.Commands.ChangeStatus.{change_status}
use diddifree_id.Commands.ChangeRole.{change_role}
use diddifree_id.Commands.DecideKyc.{decide_kyc}
use diddifree_id.Commands.UpdateProfile.{update_profile}
use diddifree_id.Server.Auth.{get_current_user_id, require_admin, require_service_or_admin}

-- A request: its credentials, its path and its body, as far as the handler reads them.
pub data Request : Type 0 where
  -- auth_router.py
  register : (phone : String) → (full_name : Option String) → Request
  otp_request : (phone : String) → (client_ip : Option String) → Request
  otp_verify : (phone code : String) → (device_info : Option String) → Request
  refresh : (refresh_token : String) → (device_info : Option String) → Request
  log_out : (refresh_token : String) → (all_devices : Bool) → Request
  -- users_router.py
  update_me : (credentials full_name : Option String) → Request
  role_change :
      (service_key credentials : Option String)
      → (user_id : ℕ) → (role : String) → (reason : Option String) → Request
  -- admin_router.py
  status_change :
      (credentials : Option String)
      → (user_id : ℕ) → (status : String) → (reason : Option String) → Request
  kyc_decision :
      (credentials : Option String)
      → (user_id : ℕ) → (approved : Bool) → (reason : Option String) → Request

module _ ⦃env : Env⦄ (ring : KeyRing) where
  unfoldable pub route : Request → M Unit
  route (register phone name) = do register_user phone name; pure tt
  route (otp_request phone ip) = do request_otp phone ip; pure tt
  route (otp_verify phone code device) = do verify_otp ring phone code device; pure tt
  route (refresh token device) = do refresh_access_token ring token device; pure tt
  route (log_out token all) = do logout token all; pure tt
  route (update_me credentials name) = do
    user_id ← get_current_user_id ring credentials
    update_profile user_id name
    pure tt
  route (role_change key credentials user_id role reason) = do
    caller ← require_service_or_admin ring key credentials
    change_role user_id role reason caller
    pure tt
  route (status_change credentials user_id status reason) = do
    admin ← require_admin ring credentials
    change_status user_id status reason (some admin.id)
    pure tt
  route (kyc_decision credentials user_id approved reason) = do
    admin ← require_admin ring credentials
    decide_kyc user_id approved reason (some admin.id)
    pure tt

  -- What a request leaves, with its session closed.
  unfoldable pub handle : Request → World → World
  unfolding route get_session
  handle request w = (get_session (route request) w).1

  -- Requests one after the other.
  unfoldable pub serve : List Request → World → World
  unfolding handle
  serve [] w = w
  serve (r ∷ rs) w = serve rs (handle r w)
