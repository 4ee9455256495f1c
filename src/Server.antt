-- ===== src/Server.antt =====
-- The routes of the service: identity_app/modules/identity/presentation, and what one request does.
pub mod Auth
pub mod Guards
pub mod Routes
pub mod Reads
pub mod Bodies
pub mod Steps
pub mod Roles
pub mod WellFormed
pub mod Startup
pub mod Paths
