-- ===== src/Scaler.antt =====
-- The scaler: one step of growing or shrinking a node pool (pkg/reconcilers/scaler.go). Its phase for
-- a pool is the status of component "Scaler" with the pool's name as its description.
pub mod Node
pub mod Pool
pub mod Run
