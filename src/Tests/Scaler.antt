-- ===== src/Tests/Scaler.antt =====
-- The scaler, the statuses and the combined results at concrete inputs.
use opensearch_k8s_operator.Prelude.{
  ◌≡◌, ◌↔◌, ◌≤◌, ◌<◌, ◌⊎◌, refl, true, false, ◌||◌, none, some, [], ◌∷◌,
}
use opensearch_k8s_operator.Prelude.Int.{pos}
use opensearch_k8s_operator.Text.{fields, trim_space, is_space, show_ℤ, digit, show_digits, show_ℕ}
use opensearch_k8s_operator.Api.{failed, ComponentStatus, Cluster, StatefulSet, Outcome}
use opensearch_k8s_operator.Exec.{read, sts_removed, World, ok, on_conflict}
use opensearch_k8s_operator.Exec.Emits.{Emits, Extends}
use opensearch_k8s_operator.Exec.Adds.{Adds}
use opensearch_k8s_operator.Exec.Kinds.{application}
use opensearch_k8s_operator.Services.{Services}
use opensearch_k8s_operator.Services.Calls.{try_status, update_status_held}
use opensearch_k8s_operator.Helpers.Roles.{sts_name, sts_in_node_pools}
use opensearch_k8s_operator.Gateway.Shards.{
  extract_node_name, has_shards_on_node, has_shards_on_node_from_response,
}
use opensearch_k8s_operator.Helpers.Status.{
  status_of, replace, find_first_partial, get_by_description_and_component,
}
use opensearch_k8s_operator.Helpers.Status.Laws.{
  find, count, matches, replace-find, replace-find_other,
}
use opensearch_k8s_operator.Helpers.Pods.{replica_host_name, ready_replicas_for_node_pool}
use opensearch_k8s_operator.Combined.{CombinedResult, empty, combine}
use opensearch_k8s_operator.Combined.Laws.{combine-soonest}
use opensearch_k8s_operator.Scaler.Node.{scaler_status, drain_node}
use opensearch_k8s_operator.Scaler.Node.Drain.{Holds, Marked, drained_status, drain_node-marks}
use opensearch_k8s_operator.Scaler.Pool.{scaler_phase, go_on, scale_pool, reconcile_node_pool}
use opensearch_k8s_operator.Scaler.Pool.Phases.{OneStep, scale_pool-OneStep}
use opensearch_k8s_operator.Scaler.Pool.Once.{reconcile_node_pool-one_node}
use opensearch_k8s_operator.Scaler.Run.{
  reconcile, reconcile_all, cleanup_stateful_sets, node_pools_ready, remove_old_from,
  remove_old_stateful_set, results_of, requeue_flag, reconcile_pools,
}
use opensearch_k8s_operator.Scaler.Run.Writes.{OnlyOld, reconcile-OnlyOld}
use opensearch_k8s_operator.Scaler.Run.Requeue.{reconcile_pools-last}
use opensearch_k8s_operator.Tests.Data.{
  services, cluster, masters, data_pool, scaler_drained, data_upgraded, set_of, start,
}

scale_pool-OneStep_example :
    Emits
      (OneStep
        (set_of "os-data")
        data_pool
        (scaler_phase (scaler_drained ∷ []) data_pool.component).0.status)
      (scale_pool services cluster data_pool (set_of "os-data") (scaler_drained ∷ []))
scale_pool-OneStep_example =
    scale_pool-OneStep services cluster data_pool (set_of "os-data") (scaler_drained ∷ [])

reconcile_node_pool-one_node_example :
    Adds application 1 (reconcile_node_pool services cluster data_pool)
reconcile_node_pool-one_node_example = reconcile_node_pool-one_node services cluster data_pool

abbrev calm : Cluster
calm = record cluster { smart_scaler = false; node_pools = masters ∷ [] }

abbrev kept : StatefulSet
kept = record (set_of "os-masters") { pool_label = "masters" }

-- The set of a pool that is gone.
abbrev gone : StatefulSet
gone = record (set_of "os-old") { pool_label = "old" }

abbrev leftover : Services
leftover = record services { list_stateful_sets = λ h. ok (kept ∷ gone ∷ []) }

reconcile-OnlyOld_example :
    Extends
      (OnlyOld leftover calm.node_pools start.history (reconcile leftover calm start).0.history)
      start.history
      (reconcile leftover calm start).0.history
reconcile-OnlyOld_example = reconcile-OnlyOld leftover calm start

-- This run removes the old set and keeps the other one.
gone-removed :
    (reconcile leftover calm start).0.history
    ≡ sts_removed "os-old" true
      ∷ read "ListStatefulSets"
      ∷ read "GetStatefulSet"
      ∷ (results_of (reconcile_node_pool leftover calm masters) start).0.history
unfolding reconcile reconcile_all reconcile_pools reconcile_node_pool scale_pool scaler_phase
    ready_replicas_for_node_pool cleanup_stateful_sets node_pools_ready remove_old_from
    remove_old_stateful_set sts_in_node_pools
gone-removed = refl

abbrev waiting : ComponentStatus
waiting = status_of "Scaler" "Waiting" "data"

replace-find_example :
    (find (replace scaler_drained waiting (data_upgraded ∷ scaler_drained ∷ [])) waiting
      ≡ (waiting, true))
    × (count waiting (replace scaler_drained waiting (data_upgraded ∷ scaler_drained ∷ [])) ≡ 1)
unfolding count matches find_first_partial get_by_description_and_component
replace-find_example =
    replace-find scaler_drained waiting (data_upgraded ∷ scaler_drained ∷ []) refl refl

replace-find_other_example :
    find (replace scaler_drained waiting (data_upgraded ∷ scaler_drained ∷ [])) data_upgraded
    ≡ find (data_upgraded ∷ scaler_drained ∷ []) data_upgraded
unfolding matches
replace-find_other_example =
    replace-find_other scaler_drained waiting data_upgraded (data_upgraded ∷ scaler_drained ∷ [])
      refl refl

abbrev in_15 : Outcome
in_15 = record { requeue = true; requeue_after = 15 }

abbrev in_10 : Outcome
in_10 = record { requeue = true; requeue_after = 10 }

abbrev combined : CombinedResult
combined = record { result = in_15; errors = [] }

combine-soonest_example :
    (let r = (combine combined (some in_10) (some (failed "x"))).result in
      (r.requeue ≡ in_10.requeue || combined.result.requeue)
      × ((r.requeue_after ≡ 0) ↔ ((combined.result.requeue_after ≡ 0) × (in_10.requeue_after ≡ 0)))
      × (0 < combined.result.requeue_after → r.requeue_after ≤ combined.result.requeue_after)
      × (0 < in_10.requeue_after → r.requeue_after ≤ in_10.requeue_after)
      × ((r.requeue_after ≡ combined.result.requeue_after)
          ⊎ (r.requeue_after ≡ in_10.requeue_after)))
combine-soonest_example = combine-soonest combined in_10 (some (failed "x"))

abbrev excluded : ComponentStatus
excluded = scaler_status "Excluded" "data" ("os-data-2" ∷ [])

drain_node-marks_example :
    Marked
      (drained_status (set_of "os-data") "data" (pos 3))
      (drain_node services excluded (set_of "os-data") "data" start).0
    ↔ (¬ Holds "os-data-2" (services.cat_shards start.history))
unfolding replica_host_name show_ℤ digit show_digits show_ℕ
drain_node-marks_example =
    drain_node-marks services (λ h. cluster) (λ h. refl) (λ h s. refl) excluded (set_of "os-data")
      "data" (pos 3) start (services.cat_shards start.history) refl refl refl refl

-- The data pool waits for a node to drain, and the masters are settled.
abbrev draining : World
draining = record start { components = excluded ∷ [] }

abbrev after_data : World
after_data = (results_of (reconcile_node_pool services cluster data_pool) draining).0

abbrev after_masters : World
after_masters = (results_of (reconcile_node_pool services cluster masters) after_data).0

-- The data pool asks to requeue, and the run does not.
reconcile_pools-last_example :
    reconcile_pools services cluster false empty (data_pool ∷ masters ∷ []) draining
    ≡ (after_masters, ok (combine empty (some (requeue_flag false)) none))
unfolding reconcile_node_pool scale_pool scaler_phase ready_replicas_for_node_pool go_on drain_node
    replica_host_name sts_name show_ℤ digit has_shards_on_node has_shards_on_node_from_response
    extract_node_name fields trim_space is_space update_status_held on_conflict try_status
reconcile_pools-last_example =
    reconcile_pools-last services cluster (data_pool ∷ masters ∷ []) false empty (true ∷ false ∷ [])
      draining after_masters (after_data, refl, (after_masters, refl, refl))
