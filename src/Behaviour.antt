-- ===== src/Behaviour.antt =====
-- What the commands of identity_app/modules/identity/application/commands reply.
pub mod Enumeration
pub mod StatusReply
pub mod Announced
pub mod Login
pub mod Session
pub mod Refresh
pub mod Renewal
pub mod OldCodes
pub mod RoleReply
pub mod KycGrant
