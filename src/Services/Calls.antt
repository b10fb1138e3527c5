-- ===== src/Services/Calls.antt =====
-- The calls as actions, and the two helpers of client.go that read, change and write back a status.
use opensearch_k8s_operator.Prelude.{Bool, Option, List, String}
use opensearch_k8s_operator.Prelude.Int.{ℤ}
use opensearch_k8s_operator.Api.{
  Cluster, ComponentStatus, StatefulSet, Pod, Shard, Health, AllocationExplain, Outcome,
}
use opensearch_k8s_operator.Api.Json.{Fields}
use opensearch_k8s_operator.Exec.{
  pod_deleted, sts_applied, sts_removed, sts_status_put, status_put, settings_put, World, ok, M,
  pure, unless, ◌>>=◌, ◌>>◌, query, command, on_conflict,
}
use opensearch_k8s_operator.Services.{Services}

module _ (sv : Services) where
  abbrev pub get_stateful_set : String → M StatefulSet
  get_stateful_set name = query "GetStatefulSet" (λ h. sv.get_stateful_set h name)

  abbrev pub list_stateful_sets : M (List StatefulSet)
  list_stateful_sets = query "ListStatefulSets" sv.list_stateful_sets

  -- The pods with the labels of the cluster and of a node pool.
  abbrev pub list_pods : String → M (List Pod)
  list_pods component = query "ListPods" (λ h. sv.list_pods h component)

  abbrev pub get_pod : String → M Pod
  get_pod name = query "GetPod" (λ h. sv.get_pod h name)

  abbrev pub delete_pod : String → M (Unit {0})
  delete_pod name = command (pod_deleted name) (λ h. sv.delete_pod h name)

  -- The pointer to a result that ReconcileResource returns beside a nil error.
  abbrev reconcile_result : M (Option Outcome)
  reconcile_result w = (w, ok (sv.reconcile_result w.history))

  abbrev pub apply_stateful_set : StatefulSet → M (Option Outcome)
  apply_stateful_set sts = do
    command (sts_applied sts) (λ h. sv.apply_stateful_set h sts)
    reconcile_result

  abbrev pub remove_stateful_set : String → M (Option Outcome)
  remove_stateful_set name = do
    command (sts_removed name) (λ h. sv.remove_stateful_set h name)
    reconcile_result

  -- One try of UpdateOpenSearchClusterStatus. The change may read and overwrite the slice of the
  -- object that the reconciler holds, which Go shares.
  unfoldable pub try_status :
      (Cluster → List ComponentStatus → Cluster × List ComponentStatus) → M (Unit {0})
  try_status f = do
    instance' ← query "GetOpenSearchCluster" sv.get_cluster
    c ← (λ (w : World).
        let (c, held) = f instance' w.components in (record w { components = held }, ok c))
    command (status_put c.status) (λ h. sv.put_status h c.status)

  -- retry.DefaultRetry makes five tries.
  unfoldable pub update_status_held :
      (Cluster → List ComponentStatus → Cluster × List ComponentStatus) → M (Unit {0})
  update_status_held f = on_conflict 4 (try_status f)

  -- UpdateOpenSearchClusterStatus with a change that reads the fresh object alone.
  abbrev pub update_status : (Cluster → Cluster) → M (Unit {0})
  update_status f = update_status_held (λ c held. (f c, held))

  -- UdateObjectStatus on a StatefulSet. Go reads the fresh object into the caller's, so it is
  -- returned, with the change made.
  unfoldable pub try_sts_status : String → (StatefulSet → StatefulSet) → M StatefulSet
  try_sts_status name f = do
    fresh ← get_stateful_set name
    command (sts_status_put (f fresh)) (λ h. sv.put_sts_status h (f fresh))
    pure (f fresh)

  unfoldable pub update_sts_status : String → (StatefulSet → StatefulSet) → M StatefulSet
  update_sts_status name f = on_conflict 4 (try_sts_status name f)

  abbrev pub create_client : M (Unit {0})
  create_client = query "CreateClientForCluster" (λ h. unless (sv.create_client h))

  abbrev pub get_health : M Health
  get_health = query "GetHealth" sv.get_health

  -- The transient settings.
  abbrev pub get_cluster_settings : M Fields
  get_cluster_settings = query "GetClusterSettings" sv.get_cluster_settings

  abbrev pub get_flat_allocation_enable : M String
  get_flat_allocation_enable = query "GetFlatClusterSettings" sv.get_flat_allocation_enable

  abbrev pub put_cluster_settings : Fields → Fields → M (Unit {0})
  put_cluster_settings persistent transient =
      command (settings_put persistent transient)
        (λ h. sv.put_cluster_settings h persistent transient)

  abbrev pub cat_indices : M (List String)
  cat_indices = query "CatIndices" sv.cat_indices

  abbrev pub cat_shards : M (List Shard)
  cat_shards = query "CatShards" sv.cat_shards

  abbrev pub cat_named_indices_shards : List String → M (List Shard)
  cat_named_indices_shards indices =
      query "CatNamedIndicesShards" (λ h. sv.cat_named_indices_shards h indices)

  abbrev pub index_exists : String → M Bool
  index_exists index = query "IndexExists" (λ h. sv.index_exists h index)

  abbrev pub get_allocation_explain : String → ℤ → Bool → M AllocationExplain
  get_allocation_explain index number primary =
      query "GetAllocationExplain" (λ h. sv.get_allocation_explain h index number primary)
