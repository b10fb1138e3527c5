-- ===== src/Scaler/Run.antt =====
-- Reconcile of the scaler: all node pools, then the StatefulSets of pools that are gone.
pub mod Requeue
pub mod Removals
pub mod Writes
use opensearch_k8s_operator.Prelude.{
  Bool, true, false, not, ◌&&◌, ◌||◌, Option, none, some, List, [], ◌∷◌, String, ◌==◌,
  if◌then◌else◌,
}
use opensearch_k8s_operator.Prelude.Int.{ℤ, pos, ◌-ℤ◌, ◌==ℤ◌}
use opensearch_k8s_operator.Api.{
  Error, not_found, conflict, panic, api, failed, ComponentStatus, ClusterStatus, Cluster, NodePool,
  StatefulSet, Outcome,
}
use opensearch_k8s_operator.Exec.{
  World, Exec, M, Result, ok, err, pure, raise, attempt, failing, deref, ◌>>=◌, ◌>>◌,
}
use opensearch_k8s_operator.Services.{Services}
use opensearch_k8s_operator.Services.Calls.{
  get_stateful_set, list_stateful_sets, apply_stateful_set, remove_stateful_set, create_client,
}
use opensearch_k8s_operator.Helpers.Roles.{sts_name, sts_in_node_pools}
use opensearch_k8s_operator.Helpers.Pods.{replicas_or_one, replica_host_name}
use opensearch_k8s_operator.Gateway.Exclusion.{append_exclude_node_host, remove_exclude_node_host}
use opensearch_k8s_operator.Gateway.Shards.{has_shards_on_node}
use opensearch_k8s_operator.Util.{done, requeue_in, clean_stale_exclusion_list}
use opensearch_k8s_operator.Combined.{CombinedResult, empty, combine}
use opensearch_k8s_operator.Scaler.Node.{Step, set_replicas}
use opensearch_k8s_operator.Scaler.Pool.{held, reconcile_node_pool}

-- scalerHasExcludeOrDrainInProgress
unfoldable pub exclude_or_drain_in_progress : List ComponentStatus → Bool
exclude_or_drain_in_progress [] = false
exclude_or_drain_in_progress (cs ∷ rest) =
    let later = exclude_or_drain_in_progress rest in
    if not (cs.component == "Scaler")
    then later
    else if cs.status == "Excluded" || cs.status == "Drained"
    then true
    else later

-- Both results of a step. A panic is not caught.
abbrev pub both : World × Result (Bool × Error) Bool → World × Result Error (Bool × Option Error)
both (w, ok b) = (w, ok (b, none))
both (w, err (b, panic)) = (w, err panic)
both (w, err (b, not_found)) = (w, ok (b, some not_found))
both (w, err (b, conflict)) = (w, ok (b, some conflict))
both (w, err (b, api s)) = (w, ok (b, some (api s)))
both (w, err (b, failed s)) = (w, ok (b, some (failed s)))

abbrev pub results_of : Step → M (Bool × Option Error)
results_of m w = both (m w)

abbrev pub requeue_flag : Bool → Outcome
requeue_flag b = record { requeue = b; requeue_after = 0 }

-- Only a pool with an error is combined inside the loop.
abbrev pub combine_error : CombinedResult → Bool × Option Error → CombinedResult
combine_error results (requeue, none) = results
combine_error results (requeue, some e) = combine results (some (requeue_flag requeue)) (some e)

-- `return result, err`, where both are combined. A panic is not caught.
abbrev pub Removal : Type 0
Removal = Exec (Option Outcome × Error) (Option Outcome)

abbrev pub both_removed :
    World × Result (Option Outcome × Error) (Option Outcome)
    → World × Result Error (Option Outcome × Option Error)
both_removed (w, ok r) = (w, ok (r, none))
both_removed (w, err (r, panic)) = (w, err panic)
both_removed (w, err (r, not_found)) = (w, ok (r, some not_found))
both_removed (w, err (r, conflict)) = (w, ok (r, some conflict))
both_removed (w, err (r, api s)) = (w, ok (r, some (api s)))
both_removed (w, err (r, failed s)) = (w, ok (r, some (failed s)))

abbrev pub results_of_removal : Removal → M (Option Outcome × Option Error)
results_of_removal m w = both_removed (m w)

module _ (sv : Services) (instance' : Cluster) where
  -- The loop over the node pools. Each pool overwrites the flag `requeue` of the one before.
  unfoldable pub reconcile_pools : Bool → CombinedResult → List NodePool → M CombinedResult
  reconcile_pools requeue results [] = pure (combine results (some (requeue_flag requeue)) none)
  reconcile_pools requeue results (np ∷ nps) =
      let rest : Bool × Option Error → M CombinedResult =
        λ r w. reconcile_pools r.0 (combine_error results r) nps w in
      results_of (reconcile_node_pool sv instance' np) >>= rest

  unfoldable pub node_pools_ready : List NodePool → M Bool
  node_pools_ready [] = pure true
  node_pools_ready (np ∷ nps) =
      let rest : M Bool = λ w. node_pools_ready nps w in
      do
        current_sts ← get_stateful_set sv (sts_name instance' np)
        replicas ← deref current_sts.replicas
        if not (current_sts.available_replicas ==ℤ replicas) then pure false else rest

  -- The end of removeStatefulSet, once the node has no shards. An error of the exclusion is returned
  -- beside the result of the node.
  unfoldable pub remove_last_node : StatefulSet → ℤ → String → Removal
  remove_last_node sts working_ordinal last_replica = do
    result ← failing none (
        if working_ordinal ==ℤ pos 0
        then remove_stateful_set sv sts.name
        else apply_stateful_set sv (set_replicas sts working_ordinal))
    failing result (remove_exclude_node_host sv last_replica)
    pure result

  unfoldable pub remove_stateful_set_gracefully : StatefulSet → Removal
  remove_stateful_set_gracefully sts = do
    failing none (create_client sv)
    let working_ordinal = replicas_or_one sts -ℤ pos 1
    let last_replica = replica_host_name sts working_ordinal
    failing none (append_exclude_node_host sv last_replica)
    not_empty ← failing none (has_shards_on_node sv last_replica)
    if not_empty
        then pure (some (requeue_in 15))
        else remove_last_node sts working_ordinal last_replica

  unfoldable pub remove_old_stateful_set : StatefulSet → Removal
  remove_old_stateful_set sts =
      if not instance'.smart_scaler
      then failing none (remove_stateful_set sv sts.name)
      else remove_stateful_set_gracefully sts

  unfoldable pub remove_old_from : CombinedResult → List StatefulSet → M CombinedResult
  remove_old_from results [] = pure results
  remove_old_from results (sts ∷ list) =
      let skip : M CombinedResult = λ w. remove_old_from results list w in
      let more : Option Outcome × Option Error → M CombinedResult =
        λ r w. remove_old_from (combine results r.0 r.1) list w in
      if not (sts_in_node_pools sts instance'.node_pools)
      then results_of_removal (remove_old_stateful_set sts) >>= more
      else skip

  abbrev pub cleanup_listed : CombinedResult → Result Error (List StatefulSet) → M CombinedResult
  cleanup_listed results (err e) = pure (combine results (some done) (some e))
  cleanup_listed results (ok list) = remove_old_from results list

  unfoldable pub cleanup_stateful_sets : CombinedResult → M CombinedResult
  cleanup_stateful_sets results = do
    listed ← attempt (list_stateful_sets sv)
    cleanup_listed results listed

  -- Old StatefulSets are removed only when all current ones are available.
  abbrev pub finish_pools : CombinedResult → Result Error Bool → M CombinedResult
  finish_pools results (err e) = pure (combine results (some done) (some e))
  finish_pools results (ok false) = pure (combine results (some (requeue_in 15)) none)
  finish_pools results (ok true) = cleanup_stateful_sets results

  unfoldable pub reconcile_all : M CombinedResult
  reconcile_all = do
    results ← reconcile_pools false empty instance'.node_pools
    ready ← attempt (node_pools_ready instance'.node_pools)
    finish_pools results ready

  abbrev pub after_cleanup : Outcome → M CombinedResult
  after_cleanup res =
      if res.requeue then pure (record { result = res; errors = [] }) else reconcile_all

  abbrev pub clean_first : Result Error (Unit {0}) → M CombinedResult
  clean_first (err e) = reconcile_all
  clean_first (ok u) = do res ← clean_stale_exclusion_list sv instance'; after_cleanup res

  -- The results and the combined error. An error of the cleanup is returned alone.
  unfoldable pub reconcile : M CombinedResult
  reconcile = do
    comp ← held
    if instance'.smart_scaler && not (exclude_or_drain_in_progress comp)
        then (do client ← attempt (create_client sv); clean_first client)
        else reconcile_all
