-- ===== src/Hosts.antt =====
-- app/hosts: what a machine says of itself.
pub mod Cpus
