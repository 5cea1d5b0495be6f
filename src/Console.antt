-- ===== src/Console.antt =====
-- app/console/service.py: where a console may be opened, whether it may, and the count of those open.
pub mod Window
pub mod Commands
pub mod Targets
pub mod Routes
pub mod Sessions
mod Examples
