-- ===== src/Restart/Pod.antt =====
-- restartSpecificPod: the checks before, and the deletion of, one pod.
pub mod Deletes
use opensearch_k8s_operator.Prelude.{Bool, true, false, not, String, if◌then◌else◌}
use opensearch_k8s_operator.Prelude.Int.{ℤ}
use opensearch_k8s_operator.Api.{Error, Cluster, Outcome}
use opensearch_k8s_operator.Exec.{M, Result, ok, err, pure, attempt, ◌>>=◌, ◌>>◌}
use opensearch_k8s_operator.Services.{Services}
use opensearch_k8s_operator.Services.Calls.{delete_pod}
use opensearch_k8s_operator.Gateway.Exclusion.{remove_exclude_node_host}
use opensearch_k8s_operator.Gateway.Health.{check_cluster_status_for_restart}
use opensearch_k8s_operator.Gateway.Prepare.{prepare_pod_for_delete}
use opensearch_k8s_operator.Util.{done, requeue_in, data_nodes_count}

module _ (sv : Services) (instance' : Cluster) where
  -- A failed removal of the exclusion is tried again later, without an error.
  abbrev pub removed : Result Error Bool → M Outcome
  removed (ok true) = pure done
  removed (ok false) = pure (requeue_in 10)
  removed (err e) = pure (requeue_in 10)

  unfoldable pub delete_and_include : String → M Outcome
  delete_and_include pod_name = do
    delete_pod sv pod_name
    if instance'.drain_data_nodes
        then attempt (remove_exclude_node_host sv pod_name) >>= removed
        else pure done

  unfoldable pub restart_specific_pod : String → M Outcome
  restart_specific_pod pod_name = do
    data_count ← data_nodes_count sv instance'
    status ← check_cluster_status_for_restart sv instance'.drain_data_nodes
    if not status.0 then pure (requeue_in 10) else (do
      ready ← prepare_pod_for_delete sv pod_name instance'.drain_data_nodes data_count
      if not ready then pure (requeue_in 10) else delete_and_include pod_name)
