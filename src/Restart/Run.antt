-- ===== src/Restart/Run.antt =====
-- Reconcile of the rolling restart.
pub mod Writes
pub mod Single
use opensearch_k8s_operator.Prelude.{
  Bool, true, false, not, ◌&&◌, Option, none, some, List, [], ◌∷◌, ◌++◌, String, ◌==◌,
  if◌then◌else◌,
}
use opensearch_k8s_operator.Prelude.Int.{ℤ, ◌==ℤ◌}
use opensearch_k8s_operator.Api.{
  Error, ComponentStatus, ClusterStatus, Cluster, NodePool, StatefulSet, Outcome,
}
use opensearch_k8s_operator.Exec.{Exec, M, Result, ok, err, pure, failing, ◌>>=◌, ◌>>◌}
use opensearch_k8s_operator.Services.{Services}
use opensearch_k8s_operator.Services.Calls.{
  get_stateful_set, update_status, update_sts_status, create_client,
}
use opensearch_k8s_operator.Helpers.Status.{status_of, find_first_partial, get_by_component}
use opensearch_k8s_operator.Helpers.Roles.{sts_name}
use opensearch_k8s_operator.Helpers.Pods.{replicas_or_one, ready_replicas_for_node_pool}
use opensearch_k8s_operator.Gateway.Health.{reactivate_shard_allocation}
use opensearch_k8s_operator.Util.{done, requeue_in, clean_stale_exclusion_list}
use opensearch_k8s_operator.Scaler.Node.{with_components}
use opensearch_k8s_operator.Scaler.Pool.{held}
use opensearch_k8s_operator.Restart.Candidates.{
  Candidate, sort_candidates, first_non_master, quorum_unsafe, pending_update, candidates_from,
  count_masters,
}
use opensearch_k8s_operator.Restart.Pod.{restart_specific_pod}

abbrev pub Reconcile : Type 0
Reconcile = Exec (Outcome × Error) Outcome

-- UpdateComponentStatus (pkg/reconcilers/reconcilers.go): in place, or at the end.
unfoldable pub update_component_status :
    ComponentStatus → List ComponentStatus → List ComponentStatus
update_component_status status [] = status ∷ []
update_component_status status (v ∷ vs) =
    let rest = update_component_status status vs in
    if v.component == status.component then status ∷ vs else v ∷ rest

abbrev pub restart_status : String → ComponentStatus
restart_status status = status_of "RollingRestart" status ""

-- The status of the restart, if there is one.
unfoldable pub find_status : List ComponentStatus → ComponentStatus × Bool
unfolding find_first_partial get_by_component
find_status components = find_first_partial get_by_component components (restart_status "")

-- A StatefulSet whose pods are all updated, but whose current revision is the old one.
abbrev pub behind : StatefulSet → Bool
behind sts = not (sts.update_revision == "") && not (sts.current_revision == sts.update_revision)

module _ (sv : Services) (instance' : Cluster) where
  unfoldable pub update_restart_status : String → M (Unit {0})
  update_restart_status status =
      update_status sv (with_components (update_component_status (restart_status status)))

  -- The current revision follows. The fresh object takes the place of the one at hand, so its count
  -- of ready replicas is used from here on.
  unfoldable pub follow_revision : StatefulSet → M StatefulSet
  follow_revision sts =
      if behind sts && not (pending_update sts)
      then update_sts_status sv sts.name (λ s. record s { current_revision = s.update_revision })
      else pure sts

  -- The first loop: `none` if a StatefulSet is not ready, else whether one has pending updates.
  unfoldable pub pending_in_pools : Bool → List NodePool → Exec (Outcome × Error) (Option Bool)
  pending_in_pools pending [] = pure (some pending)
  pending_in_pools pending (np ∷ nps) =
      let rest : Bool → Exec (Outcome × Error) (Option Bool) = λ p w. pending_in_pools p nps w in
      do
        found_sts ← failing done (get_stateful_set sv (sts_name instance' np))
        ready ←
            failing (record { requeue = true; requeue_after = 0 })
              (ready_replicas_for_node_pool sv np)
        let counted = record found_sts { ready_replicas = ready }
        sts ← failing done (follow_revision counted)
        if not (sts.ready_replicas ==ℤ replicas_or_one sts)
            then pure none
            else rest (if pending_update counted then true else pending)

  -- The test of the quorum on the first candidate: `none` means to wait.
  unfoldable pub choose : Candidate → List Candidate → M (Option Candidate)
  choose next candidates = if not next.is_master then pure (some next) else (do
    masters ← count_masters sv instance'
    if not (quorum_unsafe masters.0 masters.1)
        then pure (some next)
        else (let other = first_non_master next candidates in
            if other.is_master then pure none else pure (some other)))

  abbrev pub after_restart : Outcome → Outcome
  after_restart res = if res.requeue then res else requeue_in 10

  abbrev pub restart_chosen : Option Candidate → M Outcome
  restart_chosen none = pure (requeue_in 10)
  restart_chosen (some next) = do
    res ← restart_specific_pod sv instance' next.pod_name
    pure (after_restart res)

  abbrev pub restart_first : List Candidate → M Outcome
  restart_first [] = pure done
  restart_first (next ∷ candidates) = do
    chosen ← choose next (next ∷ candidates)
    restart_chosen chosen

  unfoldable pub restart_candidates : M Outcome
  restart_candidates = do
    candidates ← candidates_from sv instance' [] instance'.node_pools
    restart_first (sort_candidates candidates)

  unfoldable pub global_candidate_rolling_restart : M Outcome
  global_candidate_rolling_restart =
      if instance'.drain_data_nodes
      then (do
        res ← clean_stale_exclusion_list sv instance'
        if res.requeue then pure res else restart_candidates)
      else restart_candidates

  -- No update is pending: a restart that ran is finished.
  unfoldable pub finish_restart : ComponentStatus × Bool → M Outcome
  finish_restart (status, found) =
      if found && status.status == "InProgress"
      then (do
        create_client sv
        reactivate_shard_allocation sv
        update_restart_status "Finished"
        pure done)
      else pure done

  unfoldable pub start_restart : Reconcile
  start_restart = if not instance'.status.initialized then pure (requeue_in 10) else (do
    failing (record { requeue = true; requeue_after = 0 }) (update_restart_status "InProgress")
    failing done (create_client sv)
    failing done global_candidate_rolling_restart)

  abbrev pub on_pending : ComponentStatus × Bool → Option Bool → Reconcile
  on_pending status none = pure (requeue_in 10)
  on_pending status (some false) =
      failing (record { requeue = true; requeue_after = 0 }) (finish_restart status)
  on_pending status (some true) = start_restart

  unfoldable pub reconcile : Reconcile
  reconcile =
      if not (instance'.status.version == "") && not (instance'.status.version == instance'.version)
      then pure done
      else (do
        components ← held
        pending ← pending_in_pools false instance'.node_pools
        on_pending (find_status components) pending)
