-- ===== src/Core.antt =====
-- app/core: roles, sessions and the checks made on each request.
pub mod Auth
pub mod Sessions
pub mod Activity
pub mod Security
mod Examples
