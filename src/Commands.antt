-- ===== src/Commands.antt =====
-- identity_app/modules/identity/application/commands: one module for each command.
pub mod Rows
pub mod RegisterUser
pub mod RequestOtp
pub mod VerifyOtp
pub mod RefreshAccessToken
pub mod Logout
pub mod ChangeStatus
pub mod ChangeRole
pub mod DecideKyc
pub mod UpdateProfile
