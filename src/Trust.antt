-- ===== src/Trust.antt =====
-- app/trust: the keys that a node's account accepts, and the host keys that a node knows.
pub mod AuthorizedKeys
pub mod KnownHosts
pub mod KeyScan
pub mod BackupServer
pub mod SiteKey
pub mod Service
mod Examples
