-- ===== src/Tests.antt =====
-- A small instance of the code outside the repository, and the theorems at work on it.
pub mod Demo
pub mod Witnesses
pub mod Readings
pub mod Scripts
pub mod Signing
pub mod Tokens
pub mod Catalogue
pub mod Wiring
pub mod Subscriber
