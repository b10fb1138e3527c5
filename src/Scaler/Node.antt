-- ===== src/Scaler/Node.antt =====
-- The steps that add, exclude, drain and remove a node.
pub mod Writes
pub mod Drain
use opensearch_k8s_operator.Prelude.{
  Bool, true, false, not, Option, none, some, List, [], ◌∷◌, String, ◌<>◌, ◌==◌, if◌then◌else◌,
}
use opensearch_k8s_operator.Prelude.Int.{ℤ, pos, ◌+ℤ◌, ◌-ℤ◌}
use opensearch_k8s_operator.Api.{
  Error, failed, ComponentStatus, ClusterStatus, Cluster, StatefulSet,
}
use opensearch_k8s_operator.Exec.{
  Exec, M, Result, ok, err, pure, raise, attempt, failing, deref, ◌>>=◌, ◌>>◌,
}
use opensearch_k8s_operator.Services.{Services}
use opensearch_k8s_operator.Services.Calls.{apply_stateful_set, update_status, create_client}
use opensearch_k8s_operator.Helpers.Status.{status_of, remove_it, replace}
use opensearch_k8s_operator.Helpers.Pods.{replica_host_name}
use opensearch_k8s_operator.Gateway.Exclusion.{append_exclude_node_host, remove_exclude_node_host}
use opensearch_k8s_operator.Gateway.Shards.{has_shards_on_node}

-- A step of the scaler returns whether to requeue, beside an error too.
abbrev pub Step : Type 0
Step = Exec (Bool × Error) Bool

-- A change of the component statuses alone.
abbrev pub with_components : (List ComponentStatus → List ComponentStatus) → Cluster → Cluster
with_components f c =
    let status = c.status in
    record c { status = record status { components_status = f status.components_status } }

abbrev pub scaler_status : String → String → List String → ComponentStatus
scaler_status status group conditions = record {
  component = "Scaler";
  status = status;
  description = group;
  conditions = conditions;
}

abbrev pub set_replicas : StatefulSet → ℤ → StatefulSet
set_replicas sts n = record sts { replicas = some n }

-- The node that the conditions of a phase name, if any.
abbrev pub target_or : String → List String → String
target_or d [] = d
target_or d (c ∷ cs) = c

module _ (sv : Services) where
  unfoldable pub increase_one_node : StatefulSet → Step
  increase_one_node current_sts = do
    replicas ← failing true (deref current_sts.replicas)
    failing true (apply_stateful_set sv (set_replicas current_sts (replicas +ℤ pos 1)))
    pure false

  -- Back to the phase Running. An error of this update is only logged.
  abbrev pub reset : ComponentStatus → String → String → Step
  reset current_status group message = do
    failing true (
        attempt (
          update_status sv
            (with_components (replace current_status (scaler_status "Running" group [])))))
    raise (true, failed message)

  -- The part of decreaseOneNode behind its check of the node's name.
  unfoldable pub remove_node : ComponentStatus → StatefulSet → ℤ → String → Bool → Step
  remove_node current_status current_sts replicas last_replica smart_decrease = do
    failing true (apply_stateful_set sv (set_replicas current_sts replicas))
    failing false (update_status sv (with_components (remove_it current_status)))
    if not smart_decrease then pure false else (do
      failing true (create_client sv)
      failing false (remove_exclude_node_host sv last_replica)
      pure false)

  unfoldable pub decrease_one_node : ComponentStatus → StatefulSet → String → Bool → Step
  decrease_one_node current_status current_sts group smart_decrease = do
    replicas ← failing true (deref current_sts.replicas)
    let last_replica = replica_host_name current_sts (replicas -ℤ pos 1)
    if target_or last_replica current_status.conditions == last_replica
        then remove_node current_status current_sts (replicas -ℤ pos 1) last_replica smart_decrease
        else reset current_status group "target node mismatch during decrease"

  unfoldable pub exclude_node : ComponentStatus → StatefulSet → String → M (Unit {0})
  exclude_node current_status current_sts group = do
    create_client sv
    replicas ← deref current_sts.replicas
    let last_replica = replica_host_name current_sts (replicas -ℤ pos 1)
    excluded ← append_exclude_node_host sv last_replica
    if excluded
        then update_status sv (
            with_components
              (replace current_status (scaler_status "Excluded" group (last_replica ∷ []))))
        else update_status sv
            (with_components (replace current_status (scaler_status "Running" group [])))

  -- An error of the question counts as an empty node: `nodeNotEmpty` is false beside it, and the
  -- next call overwrites the error.
  abbrev pub node_not_empty : Result Error Bool → Bool
  node_not_empty (ok b) = b
  node_not_empty (err e) = false

  unfoldable pub drain_node : ComponentStatus → StatefulSet → String → M (Unit {0})
  drain_node current_status current_sts group = do
    replicas ← deref current_sts.replicas
    let expected = replica_host_name current_sts (replicas -ℤ pos 1)
    let last_replica = target_or expected current_status.conditions
    if not (last_replica == expected)
        then (do
          attempt (
              update_status sv
                (with_components (replace current_status (scaler_status "Running" group []))))
          raise (failed "target node mismatch during drain"))
        else (do
          create_client sv
          answer ← attempt (has_shards_on_node sv last_replica)
          if node_not_empty answer
              then pure tt
              else update_status sv (
                  with_components
                    (replace current_status (scaler_status "Drained" group (last_replica ∷ [])))))
