-- ===== src/Restart/Pod/Deletes.antt =====
-- How many pods restartSpecificPod deletes.
use opensearch_k8s_operator.Prelude.{◌≡◌, refl, Bool, not, true, false, String, arith}
use opensearch_k8s_operator.Api.{Health, Error, Cluster}
use opensearch_k8s_operator.Exec.{History, Event, pod_deleted, Result, ok, err, attempt}
use opensearch_k8s_operator.Exec.Emits.{Emits, Emits-pure, Emits-bind, Emits-attempt, Emits-if}
use opensearch_k8s_operator.Exec.Adds.{
  Adds, Adds-Emits, Adds-command, Adds-behind, Adds-before, Adds-if,
}
use opensearch_k8s_operator.Exec.Kinds.{deletion}
use opensearch_k8s_operator.Exec.Returns.{Emits-behind}
use opensearch_k8s_operator.Gateway.Health.Ready.{
  Quiet, negation_false, check_cluster_status_for_restart-unquiet,
}
use opensearch_k8s_operator.Services.{Services}
use opensearch_k8s_operator.Services.Calls.{delete_pod}
use opensearch_k8s_operator.Gateway.Exclusion.{remove_exclude_node_host}
use opensearch_k8s_operator.Gateway.Health.{check_cluster_status_for_restart}
use opensearch_k8s_operator.Gateway.Prepare.{prepare_pod_for_delete}
use opensearch_k8s_operator.Gateway.Writes.{
  check_cluster_status_for_restart-Emits, prepare_pod_for_delete-Emits,
  remove_exclude_node_host-Emits,
}
use opensearch_k8s_operator.Util.{requeue_in, data_nodes_count}
use opensearch_k8s_operator.Util.Writes.{data_nodes_count-Emits}
use opensearch_k8s_operator.Restart.Pod.{removed, delete_and_include, restart_specific_pod}

module _ (sv : Services) where
  pub Adds-delete_pod : (name : String) → Adds deletion 1 (delete_pod sv name)
  Adds-delete_pod name =
      Adds-command (pod_deleted name) (λ h. sv.delete_pod h name) 1 (λ b. omega arith)

  module _ (instance' : Cluster) where
    removed-Emits : {P : Event → Type 0} (r : Result Error Bool) → Emits P (removed sv instance' r)
    removed-Emits (ok true) = Emits-pure _
    removed-Emits (ok false) = Emits-pure _
    removed-Emits (err e) = Emits-pure _

    delete_and_include-Adds :
        (name : String) → Adds deletion 1 (delete_and_include sv instance' name)
    unfolding delete_and_include
    delete_and_include-Adds name = Adds-before 1 (delete_pod sv name) _ (Adds-delete_pod name) (λ _.
        Emits-if instance'.drain_data_nodes _ _
          (λ _.
            Emits-bind (attempt (remove_exclude_node_host sv name)) _
              (Emits-attempt _ (remove_exclude_node_host-Emits (λ c. refl) (λ p t b. refl) sv name))
              (λ r. removed-Emits r))
          (λ _. Emits-pure _))

    pub restart_specific_pod-Adds :
        (name : String) → Adds deletion 1 (restart_specific_pod sv instance' name)
    unfolding restart_specific_pod
    restart_specific_pod-Adds name =
        Adds-behind 1 (data_nodes_count sv instance') _
          (data_nodes_count-Emits (λ c. refl) sv instance')
          (λ n.
            Adds-behind 1 (check_cluster_status_for_restart sv instance'.drain_data_nodes) _
              (check_cluster_status_for_restart-Emits (λ c. refl) (λ p t b. refl) sv _)
              (λ status.
                Adds-if 1 (not status.0) _ _ (Adds-Emits _ 1 (Emits-pure (requeue_in 10))) (
                  Adds-behind 1 (prepare_pod_for_delete sv name instance'.drain_data_nodes n) _
                    (prepare_pod_for_delete-Emits (λ c. refl) (λ p t b. refl) sv name _ n)
                    (λ ready.
                      Adds-if 1 (not ready) _ _ (Adds-Emits _ 1 (Emits-pure (requeue_in 10)))
                        (delete_and_include-Adds name)))))

    -- With a health that is never quiet the pod is kept.
    pub restart_specific_pod-unquiet :
        (unquiet : (h : History) (health : Health) → sv.get_health h ≡ ok health → ¬ Quiet health)
        (name : String)
        → Emits (λ e. deletion e ≡ 0) (restart_specific_pod sv instance' name)
    unfolding restart_specific_pod
    restart_specific_pod-unquiet unquiet name =
        Emits-bind (data_nodes_count sv instance') _
          (data_nodes_count-Emits (λ c. refl) sv instance')
          (λ n.
            Emits-behind (check_cluster_status_for_restart sv instance'.drain_data_nodes) _
              (check_cluster_status_for_restart-Emits (λ c. refl) (λ p t b. refl) sv _)
              (check_cluster_status_for_restart-unquiet sv unquiet _)
              (λ status no_go.
                Emits-if (not status.0) _ _ (λ _. Emits-pure (requeue_in 10))
                  (λ e. absurd (no_go (negation_false status.0 e)))))
