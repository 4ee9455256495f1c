-- ===== src/Application.antt =====
-- identity_app/modules/identity/application: the rules shared by commands and queries.
pub mod Validation
pub mod Payloads
