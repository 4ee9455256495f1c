-- ===== src/Platform.antt =====
-- What every command runs on: configuration, the code outside the repository, the state of a
-- request and the session of its database.
pub mod Settings
pub mod Database
pub mod Redis
pub mod Environment
pub mod Monad
pub mod Session
