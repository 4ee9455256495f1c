-- ===== src/Contract.antt =====
-- identity_app/shared_kernel/contracts: what other modules use to verify tokens.
pub mod Verifier
pub mod Traffic
pub mod Agreement
