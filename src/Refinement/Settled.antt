-- ===== src/Refinement/Settled.antt =====
-- The commits of the commands beside that of `get_session`, which comes after the reply.
use diddifree_id.Prelude.{ℕ, ◌≡◌, String, Option, Bool, true, false, arith}
use diddifree_id.Platform.Environment.{Env}
use diddifree_id.Platform.Monad.{World, Result, ok, err}
use diddifree_id.Infra.TokenService.{KeyRing}
use diddifree_id.Commands.RegisterUser.{register_user}
use diddifree_id.Commands.RequestOtp.{request_otp}
use diddifree_id.Commands.VerifyOtp.{verify_otp}
use diddifree_id.Commands.RefreshAccessToken.{refresh_access_token}
use diddifree_id.Commands.Logout.{logout}
use diddifree_id.Commands.ChangeStatus.{change_status}
use diddifree_id.Commands.ChangeRole.{change_role}
use diddifree_id.Commands.DecideKyc.{decide_kyc}
use diddifree_id.Commands.UpdateProfile.{update_profile}

abbrev pub is_ok : {A : Type 0} → Result A → Bool
is_ok (ok a) = true
is_ok (err e) = false

abbrev pub IsSettled : {A : Type 0} → Result A × World → Type 0
IsSettled x = is_ok x.0 ≡ true → x.1.committed ≡ x.1.db

module _ ⦃env : Env⦄ (w : World) (clean : w.committed ≡ w.db) where
  pub register_user-IsSettled :
      (phone : String) (name : Option String) → IsSettled (register_user phone name w)
  unfolding register_user
  register_user-IsSettled phone name h = ground (arith, h, clean)

  pub request_otp-IsSettled :
      (phone : String) (ip : Option String) → IsSettled (request_otp phone ip w)
  unfolding request_otp
  request_otp-IsSettled phone ip h = ground (arith, h, clean)

  pub verify_otp-IsSettled :
      (ring : KeyRing) (phone code : String) (device : Option String)
      → IsSettled (verify_otp ring phone code device w)
  unfolding verify_otp
  verify_otp-IsSettled ring phone code device h = ground (arith, h, clean)

  pub refresh_access_token-IsSettled :
      (ring : KeyRing) (raw : String) (device : Option String)
      → IsSettled (refresh_access_token ring raw device w)
  unfolding refresh_access_token
  refresh_access_token-IsSettled ring raw device h = ground (arith, h, clean)

  pub logout-IsSettled : (raw : String) (all : Bool) → IsSettled (logout raw all w)
  unfolding logout
  logout-IsSettled raw all h = ground (arith, h, clean)

  pub change_status-IsSettled :
      (user_id : ℕ) (status : String) (r : Option String) (by : Option ℕ)
      → IsSettled (change_status user_id status r by w)
  unfolding change_status
  change_status-IsSettled user_id status r by h = ground (arith, h, clean)

  pub change_role-IsSettled :
      (user_id : ℕ) (role : String) (r : Option String) (by : Option ℕ)
      → IsSettled (change_role user_id role r by w)
  unfolding change_role
  change_role-IsSettled user_id role r by h = ground (arith, h, clean)

  pub decide_kyc-IsSettled :
      (user_id : ℕ) (approved : Bool) (r : Option String) (by : Option ℕ)
      → IsSettled (decide_kyc user_id approved r by w)
  unfolding decide_kyc
  decide_kyc-IsSettled user_id approved r by h = ground (arith, h, clean)

  pub update_profile-IsSettled :
      (user_id : ℕ) (name : Option String) → IsSettled (update_profile user_id name w)
  unfolding update_profile
  update_profile-IsSettled user_id name h = ground (arith, h, clean)
