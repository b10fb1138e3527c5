-- ===== src/Upgrade.antt =====
-- The upgrade of a cluster to another version (pkg/reconcilers/upgrade.go).
pub mod Version
pub mod Pick
pub mod Pool
pub mod Run
