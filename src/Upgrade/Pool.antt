-- ===== src/Upgrade/Pool.antt =====
-- doNodePoolUpgrade: one step of the upgrade of a node pool.
pub mod Deletes
pub mod Unquiet
use opensearch_k8s_operator.Prelude.{
  ℕ, zero, suc, Bool, true, false, not, ◌&&◌, Option, none, some, List, [], ◌∷◌, ◌++◌, String, ◌<>◌,
  ◌==◌, if◌then◌else◌,
}
use opensearch_k8s_operator.Prelude.Int.{ℤ, ◌==ℤ◌, ◌<ℤ◌}
use opensearch_k8s_operator.Api.{
  Error, ComponentStatus, ClusterStatus, Cluster, NodePool, StatefulSet,
}
use opensearch_k8s_operator.Api.Json.{null, Fields, end, field}
use opensearch_k8s_operator.Exec.{
  World, status_put, M, Result, ok, err, pure, raise, attempt, query, command, retried, ◌>>=◌, ◌>>◌,
}
use opensearch_k8s_operator.Services.{Services}
use opensearch_k8s_operator.Services.Calls.{
  get_stateful_set, delete_pod, update_status, put_cluster_settings,
}
use opensearch_k8s_operator.Helpers.Status.{
  replace, find_first_partial, get_by_description_and_component,
}
use opensearch_k8s_operator.Helpers.Roles.{sts_name}
use opensearch_k8s_operator.Helpers.Pods.{
  replicas_or_one, ready_replicas_for_node_pool, working_pod_for_rolling_restart,
}
use opensearch_k8s_operator.Gateway.Exclusion.{remove_exclude_node_host}
use opensearch_k8s_operator.Gateway.Health.{
  check_cluster_status_for_restart, reactivate_shard_allocation,
}
use opensearch_k8s_operator.Gateway.Prepare.{prepare_pod_for_delete}
use opensearch_k8s_operator.Util.{data_nodes_count}
use opensearch_k8s_operator.Scaler.Node.{with_components}
use opensearch_k8s_operator.Upgrade.Version.{Semver, bad_version}

abbrev pub upgrader_status : String → String → List String → ComponentStatus
upgrader_status status group conditions = record {
  component = "Upgrader";
  status = status;
  description = group;
  conditions = conditions;
}

-- The change of setComponentConditions: the new conditions take the place of the old ones.
unfoldable pub put_conditions : List String → String → List ComponentStatus → List ComponentStatus
put_conditions conditions group statuses =
    let current = upgrader_status "Upgrading" group [] in
    let (found_status, found) =
      find_first_partial get_by_description_and_component statuses current in
    replace found_status (upgrader_status "Upgrading" group conditions) statuses

-- The change then appends the conditions to the old ones, in the variable that it shares with the
-- next try after a conflict.
unfoldable pub carried : List String → String → List ComponentStatus → List String
carried conditions group statuses =
    let (found_status, found) =
      find_first_partial get_by_description_and_component statuses
        (upgrader_status "Upgrading" group []) in
    if found then found_status.conditions ++ conditions else conditions

-- The settings of the versions before 3.0.0 that are archived afterwards.
abbrev pub removed_settings : List String
removed_settings =
    "archived.opendistro.index_state_management.metadata_service.enabled"
    ∷ "archived.opendistro.index_state_management.metadata_migration.status"
    ∷ "archived.opendistro.index_state_management.template_migration.control"
    ∷ "archived.plugins.index_state_management.metadata_service.enabled"
    ∷ "archived.plugins.index_state_management.metadata_migration.status"
    ∷ "archived.plugins.index_state_management.template_migration.control" ∷ []

unfoldable pub nulls : List String → Fields
nulls [] = end
nulls (s ∷ ss) = field s null (nulls ss)

module _ (semver : Semver) where
  abbrev settings_for : Option Bool → Result Error Fields
  settings_for none = err bad_version
  settings_for (some true) = ok (nulls removed_settings)
  settings_for (some false) = ok end

  abbrev settings_for_version : Option semver.Version → Result Error Fields
  settings_for_version none = err bad_version
  settings_for_version (some new) = settings_for (semver.check ">= 3.0.0" new)

  -- The same settings are deleted from the transient and from the persistent ones.
  unfoldable pub determine_unsupported_cluster_settings : String → Result Error Fields
  determine_unsupported_cluster_settings new_version =
      settings_for_version (semver.new_version new_version)

module _ (semver : Semver) (sv : Services) (instance' : Cluster) where
  abbrev pub delete_settings : Result Error Fields → M (Unit {0})
  delete_settings (err e) = raise e
  delete_settings (ok end) = pure tt
  delete_settings (ok (field k v fs)) = put_cluster_settings sv (field k v fs) (field k v fs)

  unfoldable pub delete_unsupported_cluster_settings : M (Unit {0})
  delete_unsupported_cluster_settings =
      delete_settings (determine_unsupported_cluster_settings semver instance'.version)

  abbrev pub put_cluster : Cluster → M (Unit {0})
  put_cluster c = command (status_put c.status) (λ h. sv.put_status h c.status)

  -- One try, from the object that was read.
  abbrev pub conditions_try :
      (List String → M (Unit {0}))
      → List String
      → String
      → World × Result Error Cluster
      → World × Result Error (Unit {0})
  conditions_try again conditions group (w, ok c) =
      retried (again (carried conditions group c.status.components_status))
        (put_cluster (with_components (put_conditions conditions group) c) w)
  conditions_try again conditions group (w, err e) = retried (again conditions) (w, err e)

  -- UpdateOpenSearchClusterStatus with this change, by the tries after the first.
  unfoldable pub write_conditions : ℕ → List String → String → M (Unit {0})
  write_conditions zero conditions group w =
      (query "GetOpenSearchCluster" sv.get_cluster >>= λ c.
      put_cluster (with_components (put_conditions conditions group) c))
        w
  write_conditions (suc n) conditions group w =
      let again : List String → M (Unit {0}) = λ cs v. write_conditions n cs group v in
      conditions_try again conditions group (query "GetOpenSearchCluster" sv.get_cluster w)

  -- An error of this update is only logged.
  unfoldable pub set_component_conditions : List String → String → M (Unit {0})
  set_component_conditions conditions group = do
    attempt (write_conditions 4 conditions group)
    pure tt

  -- On an error the condition is recorded and the error returned.
  abbrev pub or_condition : {A : Type 0} → List String → String → Result Error A → M A
  or_condition conditions group (ok a) = pure a
  or_condition conditions group (err e) = do set_component_conditions conditions group; raise e

  abbrev pub guarded : {A : Type 0} → M A → List String → String → M A
  guarded m conditions group = do r ← attempt m; or_condition conditions group r

  -- The end: the pod is prepared, deleted, and taken off the list of exclusions.
  unfoldable pub delete_working_pod : StatefulSet → NodePool → ℤ → M (Unit {0})
  delete_working_pod sts pool data_count = do
    let prepared = "preparing for pod delete" ∷ []
    working_pod ←
        guarded (working_pod_for_rolling_restart sv sts)
          (prepared ++ ("Could not find working pod" ∷ [])) pool.component
    ready ←
        guarded (prepare_pod_for_delete sv working_pod instance'.drain_data_nodes data_count)
          (prepared ++ ("Could not prepare pod for delete" ∷ [])) pool.component
    if not ready
        then set_component_conditions (prepared ++ ("Waiting for node to drain" ∷ []))
            pool.component
        else (do
          guarded (delete_pod sv working_pod) (prepared ++ ("Could not delete pod" ∷ []))
              pool.component
          set_component_conditions (prepared ++ (("Deleted pod " <> working_pod) ∷ []))
              pool.component
          if instance'.drain_data_nodes
              then (do remove_exclude_node_host sv working_pod; pure tt)
              else pure tt)

  unfoldable pub finish_pool : NodePool → M (Unit {0})
  finish_pool pool = do
    reactivate_shard_allocation sv
    update_status sv (
        with_components (
          replace (upgrader_status "Upgrading" pool.component [])
            (upgrader_status "Upgraded" pool.component [])))

  unfoldable pub do_node_pool_upgrade : NodePool → M (Unit {0})
  do_node_pool_upgrade pool = do
    found_sts ← get_stateful_set sv (sts_name instance' pool)
    ready_replicas ← ready_replicas_for_node_pool sv pool
    let sts = record found_sts { ready_replicas = ready_replicas }
    data_count ← data_nodes_count sv instance'
    if sts.ready_replicas <ℤ replicas_or_one sts
        then set_component_conditions ("Waiting for all pods to be ready" ∷ []) pool.component
        else (do
          guarded delete_unsupported_cluster_settings
              ("Could not delete unsupported cluster settings" ∷ []) pool.component
          status ←
              guarded (check_cluster_status_for_restart sv instance'.drain_data_nodes)
                ("Could not check opensearch cluster status" ∷ []) pool.component
          if not status.0
              then set_component_conditions (status.1 ∷ []) pool.component
              else if sts.updated_replicas ==ℤ replicas_or_one sts
              then finish_pool pool
              else delete_working_pod sts pool data_count)
