-- ===== src/Restart/Run/Single.antt =====
-- How many pods one run of the rolling restart deletes.
use opensearch_k8s_operator.Prelude.{
  ℕ, ◌≡◌, String, refl, Bool, not, ◌&&◌, true, false, Option, none, some, List, [], ◌∷◌, ◌==◌,
}
use opensearch_k8s_operator.Api.{ComponentStatus, Cluster, Health}
use opensearch_k8s_operator.Exec.{History, ok, failing}
use opensearch_k8s_operator.Exec.Emits.{Emits-pure, Emits-failing}
use opensearch_k8s_operator.Exec.Adds.{
  Adds, Adds-Emits, Adds-behind, Adds-before, Adds-if, Adds-failing,
}
use opensearch_k8s_operator.Exec.Kinds.{deletion}
use opensearch_k8s_operator.Services.{Services}
use opensearch_k8s_operator.Services.Calls.{create_client}
use opensearch_k8s_operator.Services.Status.{create_client-Emits}
use opensearch_k8s_operator.Util.{done, clean_stale_exclusion_list}
use opensearch_k8s_operator.Util.Writes.{clean_stale_exclusion_list-Emits}
use opensearch_k8s_operator.Scaler.Pool.{held}
use opensearch_k8s_operator.Restart.Candidates.{Candidate, candidates_from, sort_candidates}
use opensearch_k8s_operator.Restart.Pod.{restart_specific_pod}
use opensearch_k8s_operator.Restart.Pod.Deletes.{
  restart_specific_pod-Adds, restart_specific_pod-unquiet,
}
use opensearch_k8s_operator.Gateway.Health.Ready.{Quiet}
use opensearch_k8s_operator.Restart.Run.{
  restart_chosen, restart_first, choose, restart_candidates, global_candidate_rolling_restart,
  update_restart_status, start_restart, on_pending, pending_in_pools, reconcile, find_status,
}
use opensearch_k8s_operator.Restart.Run.Writes.{
  candidates_from-Emits, choose-Emits, pending_in_pools-Emits, update_restart_status-Emits,
  finish_restart-Emits,
}

module _ (sv : Services) (instance' : Cluster) (n : ℕ)
    (specific : (name : String) → Adds deletion n (restart_specific_pod sv instance' name)) where
  restart_chosen-Adds :
      (chosen : Option Candidate) → Adds deletion n (restart_chosen sv instance' chosen)
  restart_chosen-Adds none = Adds-Emits _ n (Emits-pure _)
  restart_chosen-Adds (some next) =
      Adds-before n (restart_specific_pod sv instance' next.pod_name) _ (specific next.pod_name)
        (λ r. Emits-pure _)

  restart_first-Adds : (cs : List Candidate) → Adds deletion n (restart_first sv instance' cs)
  restart_first-Adds [] = Adds-Emits _ n (Emits-pure done)
  restart_first-Adds (next ∷ cs) =
      Adds-behind n (choose sv instance' next (next ∷ cs)) _
        (choose-Emits (λ c. refl) sv instance' next (next ∷ cs)) restart_chosen-Adds

  restart_candidates-Adds : Adds deletion n (restart_candidates sv instance')
  unfolding restart_candidates
  restart_candidates-Adds =
      Adds-behind n (candidates_from sv instance' [] instance'.node_pools) _
        (candidates_from-Emits (λ c. refl) sv instance' [] _)
        (λ cs. restart_first-Adds (sort_candidates cs))

  global-Adds : Adds deletion n (global_candidate_rolling_restart sv instance')
  unfolding global_candidate_rolling_restart
  global-Adds =
      Adds-if n instance'.drain_data_nodes _ _
        (Adds-behind n (clean_stale_exclusion_list sv instance') _
          (clean_stale_exclusion_list-Emits (λ c. refl) (λ p t b. refl) sv instance')
          (λ res.
            Adds-if n res.requeue _ _ (Adds-Emits _ n (Emits-pure res)) restart_candidates-Adds))
        restart_candidates-Adds

  start_restart-Adds : Adds deletion n (start_restart sv instance')
  unfolding start_restart
  start_restart-Adds =
      Adds-if n (not instance'.status.initialized) _ _ (Adds-Emits _ n (Emits-pure _)) (
        Adds-behind n
          (failing (record { requeue = true; requeue_after = 0 })
            (update_restart_status sv instance' "InProgress"))
          _
          (Emits-failing _ _
            (update_restart_status-Emits (λ c. refl) sv instance' (λ s b. refl) "InProgress"))
          (λ _.
            Adds-behind n (failing done (create_client sv)) _
              (Emits-failing done _ (create_client-Emits (λ c. refl) sv))
              (λ _. Adds-failing n done _ global-Adds)))

  on_pending-Adds :
      (s : ComponentStatus × Bool) (p : Option Bool) → Adds deletion n (on_pending sv instance' s p)
  on_pending-Adds s none = Adds-Emits _ n (Emits-pure _)
  on_pending-Adds s (some false) = Adds-Emits _ n (
      Emits-failing _ _
        (finish_restart-Emits (λ c. refl) sv instance' (λ s b. refl) (λ p t b. refl) s))
  on_pending-Adds s (some true) = start_restart-Adds

  reconcile-Adds : Adds deletion n (reconcile sv instance')
  unfolding reconcile
  reconcile-Adds =
      Adds-if n
        (not (instance'.status.version == "")
          && not (instance'.status.version == instance'.version))
        _ _ (Adds-Emits _ n (Emits-pure done))
        (Adds-behind n held _ (record { at = λ w. ([], refl, tt) })
          (λ components.
            Adds-behind n (pending_in_pools sv instance' false instance'.node_pools) _
              (pending_in_pools-Emits (λ c. refl) sv instance' (λ s b. refl) false _)
              (λ p. on_pending-Adds (find_status components) p)))

-- One run of the rolling restart deletes at most one pod, whatever Kubernetes and OpenSearch answer
-- at each call.
pub reconcile-one_pod :
    (sv : Services) (instance' : Cluster) → Adds deletion 1 (reconcile sv instance')
reconcile-one_pod sv instance' =
    reconcile-Adds sv instance' 1 (restart_specific_pod-Adds sv instance')

-- If the health that OpenSearch reports is never quiet, neither green nor yellow without a shard that
-- moves or is being set up, then a run of the rolling restart deletes no pod.
pub reconcile-unquiet :
    (sv : Services) (instance' : Cluster)
    → ((h : History) (health : Health) → sv.get_health h ≡ ok health → ¬ Quiet health)
    → Adds deletion 0 (reconcile sv instance')
reconcile-unquiet sv instance' unquiet =
    reconcile-Adds sv instance' 0
      (λ name. Adds-Emits _ 0 (restart_specific_pod-unquiet sv instance' unquiet name))
