-- ===== src/Core.antt =====
pub mod PermissionsMap
pub mod Context
pub mod Evaluators
pub mod Input
pub mod Transport
pub mod Middleware
pub mod RegoModule
pub mod PrintHook
