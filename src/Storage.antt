-- ===== src/Storage.antt =====
-- pkg/storage: the lock storages, one module each.
pub mod Lock
pub mod Memory
pub mod Retry
pub mod Sql
pub mod Redis
pub mod Spanner
