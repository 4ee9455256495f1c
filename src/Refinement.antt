-- ===== src/Refinement.antt =====
-- The commands of application/commands beside the lifecycle.
pub mod Lookup
pub mod ChangeStatus
pub mod ChangeRole
pub mod DecideKyc
pub mod Account
pub mod VerifyOtp
pub mod RequestOtp
pub mod Settled
pub mod Reuse
pub mod Draws
pub mod Tokens
