-- ===== src/Helpers.antt =====
-- pkg/helpers/helpers.go: component statuses, roles, and the counting of pods.
pub mod Status
pub mod Roles
pub mod Slices
pub mod Security
pub mod Pods
