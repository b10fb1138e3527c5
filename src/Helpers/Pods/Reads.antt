-- ===== src/Helpers/Pods/Reads.antt =====
-- The questions about pods are reads.
use opensearch_k8s_operator.Prelude.{ℕ, zero, suc, ◌+◌, not, Option, none, some, String, ◌==◌}
use opensearch_k8s_operator.Prelude.Int.{pos}
use opensearch_k8s_operator.Api.{NodePool, StatefulSet, Pod}
use opensearch_k8s_operator.Exec.{Event, read}
use opensearch_k8s_operator.Exec.Emits.{
  Emits, Emits-pure, Emits-raise, Emits-query, Emits-bind, Emits-if, Emits-option,
}
use opensearch_k8s_operator.Services.{Services}
use opensearch_k8s_operator.Services.Calls.{get_pod}
use opensearch_k8s_operator.Helpers.Pods.{
  count_running_pods_for_node_pool, ready_replicas_for_node_pool, older_revision_from,
  get_pod_with_older_revision, working_pod_for_rolling_restart, replica_host_name, revision_of,
  pod_name_or_error,
}

module _ {P : Event → Type 0} where
  revision_of-Emits : (pod : Pod) (name : String) → Emits P (revision_of pod name)
  revision_of-Emits pod name = Emits-option pod.revision _ _ (Emits-raise _) (λ rev. Emits-pure rev)

  pod_name_or_error-Emits : (o : Option Pod) → Emits P (pod_name_or_error o)
  pod_name_or_error-Emits none = Emits-raise _
  pod_name_or_error-Emits (some pod) = Emits-pure pod.name

module _ {P : Event → Type 0} (reads : (call : String) → P (read call)) (sv : Services) where
  pub ready_replicas-Emits : (np : NodePool) → Emits P (ready_replicas_for_node_pool sv np)
  unfolding ready_replicas_for_node_pool count_running_pods_for_node_pool
  ready_replicas-Emits np = search (Emits-bind, Emits-query, Emits-pure, reads)

  older_revision_from-Emits :
      (n i : ℕ) (sts : StatefulSet) → Emits P (older_revision_from sv n i sts)
  unfolding older_revision_from
  older_revision_from-Emits zero i sts = Emits-pure none
  older_revision_from-Emits (suc n) i sts =
      Emits-bind (get_pod sv (replica_host_name sts (pos i))) _
        (Emits-query _ (λ h. sv.get_pod h (replica_host_name sts (pos i))) (reads _))
        (λ pod.
          Emits-bind (revision_of pod (replica_host_name sts (pos i))) _ (revision_of-Emits pod _)
            (λ rev.
              Emits-if (not (rev == sts.update_revision)) _ _ (λ _. Emits-pure (some pod))
                (λ _. record { at = (older_revision_from-Emits n (i + 1) sts).at })))

  pub get_pod_with_older_revision-Emits :
      (sts : StatefulSet) → Emits P (get_pod_with_older_revision sv sts)
  unfolding get_pod_with_older_revision
  get_pod_with_older_revision-Emits sts = older_revision_from-Emits _ 0 sts

  pub working_pod-Emits : (sts : StatefulSet) → Emits P (working_pod_for_rolling_restart sv sts)
  unfolding working_pod_for_rolling_restart
  working_pod-Emits sts =
      search (Emits-bind, get_pod_with_older_revision-Emits, pod_name_or_error-Emits)
