-- ===== src/Infra.antt =====
-- identity_app/modules/identity/infra, identity_app/core/security.py and
-- identity_app/shared_kernel/events/bus.py: what the commands and queries call.
pub mod Users
pub mod Otps
pub mod Tokens
pub mod Cache
pub mod RateLimiter
pub mod Bus
pub mod Security
pub mod TokenService
pub mod Sms
pub mod Keys
pub mod Reads
pub mod Consumer
