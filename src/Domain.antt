-- ===== src/Domain.antt =====
-- identity_app/modules/identity/domain: roles and statuses, the entities, the domain events.
pub mod Access
pub mod Entities
pub mod Events
