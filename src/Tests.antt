-- ===== src/Tests.antt =====
-- Tests, and the theorems at concrete inputs that meet their hypotheses.
pub mod Engine
pub mod Fixtures
pub mod Documents
mod Translator
pub mod Bindings
pub mod Queries
mod Permissions
pub mod Requests
mod Standalone
pub mod Routing
pub mod Routes
pub mod Server
mod Started
mod Policies
mod Startup
