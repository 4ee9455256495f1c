-- ===== src/Scripts.antt =====
-- scripts/: what an operator runs beside the service.
pub mod Migrate
pub mod ServiceToken
pub mod GenerateKeys
