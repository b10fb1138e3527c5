-- ===== src/Restart.antt =====
-- The rolling restart after a change of the pod template (pkg/reconcilers/rollingRestart.go).
pub mod Candidates
pub mod Pod
pub mod Run
