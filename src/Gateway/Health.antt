-- ===== src/Gateway/Health.antt =====
-- Whether the cluster can lose a node now, and the switch for shard allocation.
pub mod Ready
use opensearch_k8s_operator.Prelude.{Bool, true, false, String, ◌==◌, if◌then◌else◌}
use opensearch_k8s_operator.Api.{Health}
use opensearch_k8s_operator.Exec.{M, pure, ◌>>=◌, ◌>>◌}
use opensearch_k8s_operator.Services.{Services}
use opensearch_k8s_operator.Services.Calls.{get_health, get_flat_allocation_enable}
use opensearch_k8s_operator.Gateway.Settings.{set_cluster_shard_allocation, all}
use opensearch_k8s_operator.Gateway.Shards.{check_cluster_restart_on_yellow}

module _ (sv : Services) where
  -- The part of CheckClusterStatusForRestart behind the tests of the health.
  unfoldable pub enable_allocation : Bool → M (Bool × String)
  enable_allocation true = pure (false, "cluster is not green and drain nodes is enabled")
  enable_allocation false = do
    enable ← get_flat_allocation_enable sv
    if enable == "all"
        then pure (false, "waiting for health to be green")
        else (do set_cluster_shard_allocation sv all; pure (false, "enabled shard allocation"))

  unfoldable pub check_cluster_status_for_restart : Bool → M (Bool × String)
  check_cluster_status_for_restart drain_nodes = do
    health ← get_health sv
    if health.status == "green"
        then pure (true, "")
        else if health.status == "yellow"
        then (do
          safe ← check_cluster_restart_on_yellow sv health
          if safe then pure (true, "") else enable_allocation drain_nodes)
        else enable_allocation drain_nodes

  unfoldable pub reactivate_shard_allocation : M (Unit {0})
  reactivate_shard_allocation = do
    enable ← get_flat_allocation_enable sv
    if enable == "all" then pure tt else set_cluster_shard_allocation sv all
