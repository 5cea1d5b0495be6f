-- ===== src/Runs.antt =====
-- app/runs: what a run is, the store of runs on disk, the service that launches them one at a time.
pub mod Models
pub mod Catalogue
pub mod Checks
pub mod Store
pub mod Scope
pub mod Progress
pub mod Service
mod Examples
