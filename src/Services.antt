-- ===== src/Services.antt =====
-- The clients of the two APIs: the interface K8sClient (pkg/reconcilers/k8s/client.go) and the calls
-- of OsClusterClient (opensearch-gateway/services/os_client.go) that the modelled code makes. What
-- stands behind a client is unknown: each call is answered by a function of all that happened
-- before, so a service may change between two calls, and may fail at any of them.
pub mod Calls
pub mod Status
use opensearch_k8s_operator.Prelude.{Bool, Option, List, String}
use opensearch_k8s_operator.Prelude.Int.{ℤ}
use opensearch_k8s_operator.Api.{
  Error, Cluster, ClusterStatus, StatefulSet, Pod, Shard, Health, AllocationExplain, Outcome,
}
use opensearch_k8s_operator.Api.Json.{Fields}
use opensearch_k8s_operator.Exec.{History, Result}

pub record Services : Type 0 where
  -- Kubernetes
  pub get_stateful_set : History → String → Result Error StatefulSet
  pub list_stateful_sets : History → Result Error (List StatefulSet)
  pub list_pods : History → String → Result Error (List Pod)
  pub get_pod : History → String → Result Error Pod
  pub delete_pod : History → String → Option Error
  -- ReconcileResource with StatePresent or StateAbsent; the result is a pointer.
  pub apply_stateful_set : History → StatefulSet → Option Error
  pub remove_stateful_set : History → String → Option Error
  pub reconcile_result : History → Option Outcome
  pub get_cluster : History → Result Error Cluster
  pub put_status : History → ClusterStatus → Option Error
  pub put_sts_status : History → StatefulSet → Option Error
  -- CreateClientForCluster
  pub create_client : History → Option Error
  -- OpenSearch
  pub get_health : History → Result Error Health
  pub get_cluster_settings : History → Result Error Fields
  pub get_flat_allocation_enable : History → Result Error String
  pub put_cluster_settings : History → Fields → Fields → Option Error
  pub cat_indices : History → Result Error (List String)
  pub cat_shards : History → Result Error (List Shard)
  pub cat_named_indices_shards : History → List String → Result Error (List Shard)
  pub index_exists : History → String → Result Error Bool
  pub get_allocation_explain : History → String → ℤ → Bool → Result Error AllocationExplain
