-- ===== src/Inventory.antt =====
-- app/inventory: the groups of an inventory and the hosts that they hold.
pub mod Resolve
pub mod Model
pub mod Rules
pub mod Groups
pub mod Repository
pub mod Replication
mod Examples
