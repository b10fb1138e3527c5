-- ===== src/Restart/Run/Writes.antt =====
-- The parts of the rolling restart that delete no pod.
use opensearch_k8s_operator.Prelude.{
  Bool, not, ◌&&◌, true, none, some, List, [], ◌∷◌, ◌++◌, String, ◌==◌, if◌then◌else◌,
}
use opensearch_k8s_operator.Prelude.Int.{ℤ, ◌+ℤ◌, ◌==ℤ◌}
use opensearch_k8s_operator.Api.{ClusterStatus, ComponentStatus, Cluster, NodePool, StatefulSet}
use opensearch_k8s_operator.Api.Json.{Fields}
use opensearch_k8s_operator.Exec.{Event, read, status_put, sts_status_put, settings_put, failing}
use opensearch_k8s_operator.Exec.Emits.{Emits, Emits-pure, Emits-bind, Emits-failing, Emits-if}
use opensearch_k8s_operator.Services.{Services}
use opensearch_k8s_operator.Services.Calls.{get_stateful_set, create_client}
use opensearch_k8s_operator.Services.Status.{
  get_stateful_set-Emits, create_client-Emits, update_status_held-Emits, update_sts_status-Emits,
}
use opensearch_k8s_operator.Helpers.Roles.{sts_name, has_manager_role}
use opensearch_k8s_operator.Helpers.Pods.{
  replicas_or_one, ready_replicas_for_node_pool, get_pod_with_older_revision,
}
use opensearch_k8s_operator.Helpers.Pods.Reads.{
  ready_replicas-Emits, get_pod_with_older_revision-Emits,
}
use opensearch_k8s_operator.Gateway.Health.{reactivate_shard_allocation}
use opensearch_k8s_operator.Gateway.Writes.{reactivate_shard_allocation-Emits}
use opensearch_k8s_operator.Util.{done}
use opensearch_k8s_operator.Restart.Candidates.{
  Candidate, pending_update, candidates_from, candidate_of, count_masters_from, count_masters,
  quorum_unsafe, first_non_master,
}
use opensearch_k8s_operator.Restart.Run.{
  behind, update_restart_status, follow_revision, pending_in_pools, choose, finish_restart,
}

module _ {P : Event → Type 0} (reads : (call : String) → P (read call)) (sv : Services)
    (instance' : Cluster) where
  pub candidates_from-Emits :
      (cs : List Candidate) (nps : List NodePool) → Emits P (candidates_from sv instance' cs nps)
  unfolding candidates_from
  candidates_from-Emits cs [] = Emits-pure cs
  candidates_from-Emits cs (np ∷ nps) =
      Emits-bind (get_stateful_set sv (sts_name instance' np)) _
        (get_stateful_set-Emits {P = P} reads sv _)
        (λ sts.
          Emits-if (not (pending_update sts)) _ _
            (λ _. record { at = (candidates_from-Emits (cs ++ []) nps).at })
            (λ _.
              Emits-bind (get_pod_with_older_revision sv sts) _
                (get_pod_with_older_revision-Emits {P = P} reads sv sts)
                (λ pod. record {
                  at = (candidates_from-Emits (cs ++ candidate_of sv instance' sts np pod) nps).at;
                })))

  count_masters_from-Emits :
      (total ready : ℤ) (nps : List NodePool)
      → Emits P (count_masters_from sv instance' total ready nps)
  unfolding count_masters_from
  count_masters_from-Emits total ready [] = Emits-pure _
  count_masters_from-Emits total ready (np ∷ nps) =
      Emits-if (not (has_manager_role np)) _ _
        (λ _. record { at = (count_masters_from-Emits total ready nps).at })
        (λ _.
          Emits-bind (get_stateful_set sv (sts_name instance' np)) _
            (get_stateful_set-Emits {P = P} reads sv _)
            (λ sts.
              Emits-bind (ready_replicas_for_node_pool sv np) _
                (ready_replicas-Emits {P = P} reads sv np)
                (λ r. record {
                  at =
                      (count_masters_from-Emits (total +ℤ replicas_or_one sts) (ready +ℤ r) nps).at;
                })))

  pub choose-Emits :
      (next : Candidate) (cs : List Candidate) → Emits P (choose sv instance' next cs)
  unfolding choose count_masters
  choose-Emits next cs =
      Emits-if (not next.is_master) _ _ (λ _. Emits-pure (some next))
        (λ _. Emits-bind (count_masters sv instance') _ (count_masters_from-Emits _ _ _) (λ m.
          Emits-if (not (quorum_unsafe m.0 m.1)) _ _ (λ _. Emits-pure (some next))
            (λ _.
              Emits-if (first_non_master next cs).is_master _ _ (λ _. Emits-pure none)
                (λ _. Emits-pure _))))

  module _ (follows : (s : StatefulSet) (b : Bool) → P (sts_status_put s b)) where
    follow_revision-Emits : (sts : StatefulSet) → Emits P (follow_revision sv instance' sts)
    unfolding follow_revision
    follow_revision-Emits sts =
        Emits-if (behind sts && not (pending_update sts)) _ _
          (λ _. update_sts_status-Emits {P = P} reads sv follows sts.name _) (λ _. Emits-pure sts)

    pub pending_in_pools-Emits :
        (b : Bool) (nps : List NodePool) → Emits P (pending_in_pools sv instance' b nps)
    unfolding pending_in_pools
    pending_in_pools-Emits b [] = Emits-pure (some b)
    pending_in_pools-Emits b (np ∷ nps) =
        Emits-bind (failing done (get_stateful_set sv (sts_name instance' np))) _
          (Emits-failing done _ (get_stateful_set-Emits {P = P} reads sv _))
          (λ found.
            Emits-bind
              (failing (record { requeue = true; requeue_after = 0 })
                (ready_replicas_for_node_pool sv np))
              _ (Emits-failing _ _ (ready_replicas-Emits {P = P} reads sv np))
              (λ r.
                let counted : StatefulSet = record found { ready_replicas = r } in
                Emits-bind (failing done (follow_revision sv instance' counted)) _
                  (Emits-failing done _ (follow_revision-Emits counted))
                  (λ sts.
                    Emits-if (not (sts.ready_replicas ==ℤ replicas_or_one sts)) _ _
                      (λ _. Emits-pure none)
                      (λ _. record {
                        at =
                            (pending_in_pools-Emits (if pending_update counted then true else b)
                              nps).at;
                      }))))

  module _ (puts : (s : ClusterStatus) (b : Bool) → P (status_put s b)) where
    pub update_restart_status-Emits :
        (status : String) → Emits P (update_restart_status sv instance' status)
    unfolding update_restart_status
    update_restart_status-Emits status = update_status_held-Emits {P = P} reads sv puts _

    pub finish_restart-Emits :
        (settings : (p t : Fields) (b : Bool) → P (settings_put p t b)) (s : ComponentStatus × Bool)
        → Emits P (finish_restart sv instance' s)
    unfolding finish_restart
    finish_restart-Emits settings (status, found) =
        Emits-if (found && status.status == "InProgress") _ _
          (λ _. Emits-bind (create_client sv) _ (create_client-Emits {P = P} reads sv) (λ _.
            Emits-bind (reactivate_shard_allocation sv) _
              (reactivate_shard_allocation-Emits {P = P} reads settings sv)
              (λ _.
                Emits-bind (update_restart_status sv instance' "Finished") _
                  (update_restart_status-Emits "Finished") (λ _. Emits-pure done))))
          (λ _. Emits-pure done)
