-- ===== src/Scaler/Pool.antt =====
-- reconcileNodePool: which step a node pool takes in one run.
pub mod Phases
pub mod Once
use opensearch_k8s_operator.Prelude.{
  Bool, true, false, not, ◌||◌, List, String, ◌==◌, if◌then◌else◌,
}
use opensearch_k8s_operator.Prelude.Int.{ℤ, pos, ◌-ℤ◌, ◌==ℤ◌, ◌<ℤ◌}
use opensearch_k8s_operator.Api.{ComponentStatus, ClusterStatus, Cluster, NodePool, StatefulSet}
use opensearch_k8s_operator.Exec.{World, Exec, ok, pure, failing, deref, ◌>>=◌, ◌>>◌}
use opensearch_k8s_operator.Services.{Services}
use opensearch_k8s_operator.Services.Calls.{get_stateful_set, update_status, update_status_held}
use opensearch_k8s_operator.Helpers.Status.{
  status_of, remove_it, remove_it_held, replace, replace_held, find_first_partial,
  get_by_description_and_component,
}
use opensearch_k8s_operator.Helpers.Roles.{sts_name}
use opensearch_k8s_operator.Helpers.Pods.{ready_replicas_for_node_pool}
use opensearch_k8s_operator.Scaler.Node.{
  Step, with_components, increase_one_node, decrease_one_node, exclude_node, drain_node,
}

-- `r.instance.Status.ComponentsStatus`
abbrev pub held : {E : Type 0} → Exec E (List ComponentStatus)
held w = (w, ok w.components)

-- The status of the scaler for a pool, with the flag that one was found.
unfoldable pub scaler_phase : List ComponentStatus → String → ComponentStatus × Bool
unfolding find_first_partial get_by_description_and_component
scaler_phase comp group =
    find_first_partial get_by_description_and_component comp (status_of "Scaler" "Running" group)

-- The update at equal replicas. It computes the new list from the slice that the reconciler holds,
-- not from the fresh object, and Go's append changes that slice in place.
unfoldable pub settle :
    ComponentStatus → NodePool → ℤ → Cluster → List ComponentStatus → Cluster × List ComponentStatus
settle current_status node_pool ready c comp =
    let waiting = status_of "Scaler" "Waiting" node_pool.component in
    if not (ready ==ℤ node_pool.replicas)
    then (
      with_components (λ _. replace current_status waiting comp) c,
      replace_held current_status waiting comp,
    )
    else (
      with_components (λ _. remove_it current_status comp) c,
      remove_it_held current_status comp,
    )

module _ (sv : Services) (instance' : Cluster) where
  -- The phases Excluded and Drained.
  unfoldable pub go_on : ComponentStatus → StatefulSet → NodePool → Step
  go_on current_status current_sts node_pool =
      if current_status.status == "Excluded"
      then (do
        failing true (drain_node sv current_status current_sts node_pool.component)
        pure true)
      else if current_status.status == "Drained"
      then decrease_one_node sv current_status current_sts node_pool.component
          instance'.smart_scaler
      else pure false

  -- The phase Running: a first step down or a step up.
  unfoldable pub start : ComponentStatus → StatefulSet → NodePool → ℤ → Step
  start current_status current_sts node_pool diff = do
    failing true (
        update_status sv (
          with_components
            (replace current_status (status_of "Scaler" "Running" node_pool.component))))
    if pos 0 <ℤ diff
        then (if not instance'.smart_scaler
            then decrease_one_node sv current_status current_sts node_pool.component
                instance'.smart_scaler
            else (do
              failing true (exclude_node sv current_status current_sts node_pool.component)
              pure true))
        else if diff <ℤ pos 0
        then increase_one_node sv current_sts
        else go_on current_status current_sts node_pool

  -- The part of reconcileNodePool behind its reads.
  unfoldable pub scale_pool : NodePool → StatefulSet → List ComponentStatus → Step
  scale_pool node_pool current_sts comp =
      let (current_status, found) = scaler_phase comp node_pool.component in
      do
        replicas ← failing false (deref current_sts.replicas)
        let diff = replicas -ℤ node_pool.replicas
        if diff ==ℤ pos 0
            then (if found
                then (do
                  failing false (
                      update_status_held sv
                        (settle current_status node_pool current_sts.ready_replicas))
                  pure false)
                else pure false)
            else if not found
                || current_status.status == "Running"
                || current_status.status == "Waiting"
            then start current_status current_sts node_pool diff
            else go_on current_status current_sts node_pool

  unfoldable pub reconcile_node_pool : NodePool → Step
  reconcile_node_pool node_pool = do
    found_sts ← failing false (get_stateful_set sv (sts_name instance' node_pool))
    ready ← failing false (ready_replicas_for_node_pool sv node_pool)
    comp ← held
    scale_pool node_pool (record found_sts { ready_replicas = ready }) comp
