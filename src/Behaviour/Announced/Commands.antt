-- ===== src/Behaviour/Announced/Commands.antt =====
-- Every command that changes an account, with its event.
use diddifree_id.Prelude.{ℕ, ◌≡◌, String, Bool, Option}
use diddifree_id.Platform.Environment.{Env}
use diddifree_id.Platform.Monad.{World}
use diddifree_id.Infra.TokenService.{KeyRing}
use diddifree_id.Commands.VerifyOtp.{verify_otp}
use diddifree_id.Commands.ChangeStatus.{change_status}
use diddifree_id.Commands.ChangeRole.{change_role}
use diddifree_id.Commands.DecideKyc.{decide_kyc}
use diddifree_id.Commands.UpdateProfile.{update_profile}
use diddifree_id.Lifecycle.Keyed.{IsKeyed}
use diddifree_id.Behaviour.Announced.{IsAnnounced}
use diddifree_id.Behaviour.Announced.Status.{change_status-IsAnnounced}
use diddifree_id.Behaviour.Announced.Role.{change_role-IsAnnounced}
use diddifree_id.Behaviour.Announced.Kyc.{decide_kyc-IsAnnounced}
use diddifree_id.Behaviour.Announced.Profile.{update_profile-IsAnnounced}
use diddifree_id.Behaviour.Announced.Login.{verify_otp-IsAnnounced}

module _ ⦃env : Env⦄ where
  -- The commands, from a state.
  pub record AreAnnounced (w : World) : Type 0 where
    pub verifications :
        (ring : KeyRing) (phone code : String) (device : Option String)
        → IsAnnounced w (verify_otp ring phone code device w)
    pub statuses :
        (user_id : ℕ) (status : String) (reason : Option String) (by : Option ℕ)
        → IsAnnounced w (change_status user_id status reason by w)
    pub roles :
        (user_id : ℕ) (role : String) (reason : Option String) (by : Option ℕ)
        → IsAnnounced w (change_role user_id role reason by w)
    pub decisions :
        (user_id : ℕ) (approved : Bool) (reason : Option String) (by : Option ℕ)
        → IsAnnounced w (decide_kyc user_id approved reason by w)
    pub names : (user_id : ℕ) (name : Option String) → IsAnnounced w (update_profile user_id name w)

  -- On a session with nothing to write and ids that are keys, a verification of a code, a change
  -- of status, a change of role, a KYC decision and an update of a profile each do one of three
  -- things. They change no committed account and send nothing to Redis; or they change no account
  -- and drop one cached profile; or they change one account, drop its cached profile and then
  -- publish exactly one event, which gives the id, the phone and the role of the account as it
  -- now is, and the old and the new role or status if it is of that class. Whoever sends anything
  -- has returned: a refusal sends nothing.
  pub commands-AreAnnounced : (w : World) → w.committed ≡ w.db → IsKeyed w.db → AreAnnounced w
  commands-AreAnnounced w clean keyed = record {
    verifications =
        λ ring phone code device. verify_otp-IsAnnounced ring phone code device w clean keyed;
    statuses =
        λ user_id status reason by. change_status-IsAnnounced user_id status reason by w clean;
    roles = λ user_id role reason by. change_role-IsAnnounced user_id role reason by w clean;
    decisions =
        λ user_id approved reason by. decide_kyc-IsAnnounced user_id reason by w approved clean;
    names = λ user_id name. update_profile-IsAnnounced user_id name w clean;
  }
