-- ===== src/Refinement/Draws.antt =====
-- The count of the draws, through a command.
use diddifree_id.Prelude.{ℕ, ◌≤◌, String, Option, Bool, arith}
use diddifree_id.Platform.Environment.{Env}
use diddifree_id.Platform.Monad.{World}
use diddifree_id.Infra.TokenService.{KeyRing}
use diddifree_id.Commands.RegisterUser.{register_user}
use diddifree_id.Commands.RequestOtp.{request_otp}
use diddifree_id.Commands.VerifyOtp.{verify_otp}
use diddifree_id.Commands.RefreshAccessToken.{refresh_access_token}
use diddifree_id.Commands.Logout.{logout}
use diddifree_id.Commands.ChangeStatus.{change_status}
use diddifree_id.Commands.ChangeRole.{change_role}
use diddifree_id.Commands.DecideKyc.{decide_kyc}
use diddifree_id.Commands.UpdateProfile.{update_profile}
use diddifree_id.Infra.Users
use diddifree_id.Infra.Otps.{mark_consumed}

module _ ⦃env : Env⦄ (w : World) where
  pub draws-register_user :
      (phone : String) (name : Option String) → w.draws ≤ (register_user phone name w).1.draws
  unfolding register_user Users.save
  draws-register_user phone name = ground arith

  pub draws-request_otp :
      (phone : String) (ip : Option String) → w.draws ≤ (request_otp phone ip w).1.draws
  unfolding request_otp
  draws-request_otp phone ip = ground arith

  pub draws-verify_otp :
      (ring : KeyRing) (phone code : String) (device : Option String)
      → w.draws ≤ (verify_otp ring phone code device w).1.draws
  unfolding verify_otp Users.save mark_consumed
  draws-verify_otp ring phone code device = ground arith

  pub draws-refresh_access_token :
      (ring : KeyRing) (raw : String) (device : Option String)
      → w.draws ≤ (refresh_access_token ring raw device w).1.draws
  unfolding refresh_access_token
  draws-refresh_access_token ring raw device = ground arith

  pub draws-logout : (raw : String) (all : Bool) → w.draws ≤ (logout raw all w).1.draws
  unfolding logout
  draws-logout raw all = ground arith

  pub draws-change_status :
      (user_id : ℕ) (status : String) (r : Option String) (by : Option ℕ)
      → w.draws ≤ (change_status user_id status r by w).1.draws
  unfolding change_status Users.save
  draws-change_status user_id status r by = ground arith

  pub draws-change_role :
      (user_id : ℕ) (role : String) (r : Option String) (by : Option ℕ)
      → w.draws ≤ (change_role user_id role r by w).1.draws
  unfolding change_role Users.save
  draws-change_role user_id role r by = ground arith

  pub draws-decide_kyc :
      (user_id : ℕ) (approved : Bool) (r : Option String) (by : Option ℕ)
      → w.draws ≤ (decide_kyc user_id approved r by w).1.draws
  unfolding decide_kyc Users.save
  draws-decide_kyc user_id approved r by = ground arith

  pub draws-update_profile :
      (user_id : ℕ) (name : Option String) → w.draws ≤ (update_profile user_id name w).1.draws
  unfolding update_profile Users.save
  draws-update_profile user_id name = ground arith
