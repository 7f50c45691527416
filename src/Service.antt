-- ===== src/Service.antt =====
-- The package `service`.
pub mod Revoke
pub mod Standalone
pub mod Handler
pub mod Status
pub mod Router
pub mod Server
