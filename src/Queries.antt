-- ===== src/Queries.antt =====
-- identity_app/modules/identity/application/queries: the read half.
pub mod GetUser
pub mod ListUsers
pub mod Wanted
pub mod Walk
pub mod Listing
pub mod Outcomes
pub mod Pages
