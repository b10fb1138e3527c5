-- ===== src/Gateway/Prepare.antt =====
-- What must be done, and must hold, before a pod is deleted.
use opensearch_k8s_operator.Prelude.{Bool, true, not, List, [], ◌∷◌, ◌++◌, String, if◌then◌else◌}
use opensearch_k8s_operator.Prelude.Int.{ℤ, pos, ◌==ℤ◌}
use opensearch_k8s_operator.Exec.{M, pure, ◌>>=◌, ◌>>◌}
use opensearch_k8s_operator.Services.{Services}
use opensearch_k8s_operator.Services.Calls.{index_exists}
use opensearch_k8s_operator.Gateway.Settings.{set_cluster_shard_allocation, primaries}
use opensearch_k8s_operator.Gateway.Exclusion.{append_exclude_node_host}
use opensearch_k8s_operator.Gateway.Shards.{has_index_primaries_on_node, check_pod_safe_to_delete}

-- AdditionalSystemIndices (opensearch-gateway/services/os_client.go)
abbrev pub additional_system_indices : List String
additional_system_indices =
    ".opendistro-alerting-config" ∷ ".opendistro-alerting-alert*" ∷ ".opendistro-anomaly-results*"
    ∷ ".opendistro-anomaly-detector*" ∷ ".opendistro-anomaly-checkpoints"
    ∷ ".opendistro-anomaly-detection-state" ∷ ".opendistro-reports-*"
    ∷ ".opendistro-notifications-*" ∷ ".opendistro-notebooks" ∷ ".opensearch-observability"
    ∷ ".opendistro-asynchronous-search-response*" ∷ ".replication-metadata-store" ∷ []

module _ (sv : Services) where
  unfoldable pub existing_indices : List String → List String → M (List String)
  existing_indices existing [] = pure existing
  existing_indices existing (index ∷ indices) =
      let more : Bool → M (List String) = λ exists w.
        existing_indices (if exists then existing ++ (index ∷ []) else existing) indices w in
      index_exists sv index >>= more

  unfoldable pub get_existing_system_indices : M (List String)
  get_existing_system_indices =
      existing_indices [] (".kibana_1" ∷ ".opendistro_security" ∷ additional_system_indices)

  unfoldable pub prepare_pod_for_delete : String → Bool → ℤ → M Bool
  prepare_pod_for_delete pod_name drain_node node_count =
      if drain_node
      then (do
        append_exclude_node_host sv pod_name
        if node_count ==ℤ pos 2
            then (do
              system_indices ← get_existing_system_indices
              system_primaries ← has_index_primaries_on_node sv pod_name system_indices
              pure (not system_primaries))
            else check_pod_safe_to_delete sv pod_name)
      else (do set_cluster_shard_allocation sv primaries; pure true)
