-- ===== src/Ports.antt =====
-- identity_app/modules/identity/domain/interfaces.py: the ports, each a record of operations on
-- the state of a request. What a port promises is in Promises, who fills it in Wiring.
pub mod Promises
pub mod Wiring
pub mod Otps
pub mod Tokens
pub mod Users
pub mod Services
pub mod Logout
pub mod Filled
use diddifree_id.Prelude.{ℕ, String, Option, List}
use diddifree_id.Domain.Entities.{User, OtpCode, RefreshToken, UserStatusChange, UserRoleChange}
use diddifree_id.Domain.Events.{DomainEvent}
use diddifree_id.Platform.Monad.{M}
use diddifree_id.Infra.Reads.{Filters}

pub record UserWriteRepository : Type 0 where
  pub save : User → M User
  pub find_by_id : ℕ → M (Option User)
  pub find_by_phone : String → M (Option User)
  pub record_status_change : UserStatusChange → M Unit
  pub record_role_change : UserRoleChange → M Unit
  pub commit : M Unit

pub record UserReadRepository : Type 0 where
  pub get_by_id : ℕ → M (Option User)
  pub get_by_phone : String → M (Option User)
  pub list_users : Filters → ℕ → ℕ → M (List User × ℕ)

pub record OtpRepository : Type 0 where
  pub save : OtpCode → M OtpCode
  pub find_latest_active : String → M (Option OtpCode)
  pub register_attempt : ℕ → M ℕ
  pub mark_consumed : ℕ → M Unit
  pub commit : M Unit

pub record RefreshTokenRepository : Type 0 where
  pub save : RefreshToken → M RefreshToken
  pub find_by_hash : String → M (Option RefreshToken)
  pub revoke : ℕ → M Unit
  pub revoke_all_for_user : ℕ → M ℕ
  pub commit : M Unit

pub record ProfileCache : Type 0 where
  pub get_user : ℕ → M (Option User)
  pub set_user : User → M Unit
  pub invalidate_user : ℕ → M Unit

pub record EventPublisher : Type 0 where
  pub publish : DomainEvent → M Unit

pub record OtpSender : Type 0 where
  pub send : String → String → M Unit
