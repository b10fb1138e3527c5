-- ===== src/Util/Writes.antt =====
-- The count of data nodes reads, and the removal of stale exclusions changes nothing but the
-- settings of OpenSearch.
use opensearch_k8s_operator.Prelude.{Bool, true, false, List, [], ◌∷◌, String, if◌then◌else◌}
use opensearch_k8s_operator.Prelude.Int.{ℤ}
use opensearch_k8s_operator.Api.{
  Error, not_found, conflict, panic, api, failed, NodePool, Cluster, StatefulSet, Pod, Outcome,
}
use opensearch_k8s_operator.Api.Json.{Fields}
use opensearch_k8s_operator.Exec.{Event, read, settings_put, M, Result, ok, err, pure, attempt}
use opensearch_k8s_operator.Exec.Emits.{
  Emits, Emits-pure, Emits-raise, Emits-query, Emits-bind, Emits-attempt, Emits-if, Emits-option,
}
use opensearch_k8s_operator.Services.{Services}
use opensearch_k8s_operator.Services.Calls.{get_stateful_set}
use opensearch_k8s_operator.Helpers.Roles.{sts_name, has_data_role}
use opensearch_k8s_operator.Gateway.Exclusion.{remove_exclude_node_host}
use opensearch_k8s_operator.Gateway.Writes.{
  get_excluded_node_names-Emits, remove_exclude_node_host-Emits,
}
use opensearch_k8s_operator.Util.{
  done, requeue_in, updated, add_replicas, owns, data_nodes_from, data_nodes_count,
  stale_by_revision, stale_if, is_pod_stale, clean_names, clean_stale_exclusion_list,
}

module _ {P : Event → Type 0} where
  updated-Emits : (sts : StatefulSet) (pod : Pod) → Emits P (updated sts pod)
  updated-Emits sts pod = Emits-option pod.revision _ _ (Emits-raise _) (λ rev. Emits-pure _)

module _ {P : Event → Type 0} (reads : (call : String) → P (read call)) (sv : Services)
    (instance' : Cluster) where
  data_nodes_from-Emits :
      (count : ℤ) (nps : List NodePool) → Emits P (data_nodes_from sv instance' count nps)
  unfolding data_nodes_from
  data_nodes_from-Emits count [] = Emits-pure count
  data_nodes_from-Emits count (np ∷ nps) =
      Emits-if (has_data_role np) _ _
        (λ _.
          Emits-bind (attempt (get_stateful_set sv (sts_name instance' np))) _
            (search (Emits-attempt, Emits-query, reads))
            (λ r. record { at = (data_nodes_from-Emits (add_replicas count r) nps).at }))
        (λ _. record { at = (data_nodes_from-Emits count nps).at })

  pub data_nodes_count-Emits : Emits P (data_nodes_count sv instance')
  unfolding data_nodes_count
  data_nodes_count-Emits = data_nodes_from-Emits _ _

  stale_by_revision-Emits :
      (name : String) (pod : Pod) (nps : List NodePool)
      → Emits P (stale_by_revision sv instance' name pod nps)
  unfolding stale_by_revision
  stale_by_revision-Emits name pod [] = Emits-pure true
  stale_by_revision-Emits name pod (np ∷ nps) =
      Emits-bind (get_stateful_set sv (sts_name instance' np)) _ (search (Emits-query, reads))
        (λ sts.
          Emits-if (owns sts name) _ _ (λ _. updated-Emits sts pod)
            (λ _. record { at = (stale_by_revision-Emits name pod nps).at }))

  stale_if-Emits : (name : String) (r : Result Error Pod) → Emits P (stale_if sv instance' name r)
  stale_if-Emits name (ok pod) = stale_by_revision-Emits name pod _
  stale_if-Emits name (err not_found) = Emits-pure true
  stale_if-Emits name (err conflict) = Emits-raise conflict
  stale_if-Emits name (err panic) = Emits-raise panic
  stale_if-Emits name (err (api s)) = Emits-raise (api s)
  stale_if-Emits name (err (failed s)) = Emits-raise (failed s)

  pub is_pod_stale-Emits : (name : String) → Emits P (is_pod_stale sv instance' name)
  unfolding is_pod_stale
  is_pod_stale-Emits name = search (Emits-bind, Emits-attempt, Emits-query, stale_if-Emits, reads)

module _ {P : Event → Type 0} (reads : (call : String) → P (read call))
    (puts : (p t : Fields) (b : Bool) → P (settings_put p t b)) (sv : Services)
    (instance' : Cluster) where
  or_later-Emits :
      (rest : M Outcome) (r : Result Error Bool)
      → Emits P rest
      → Emits P (elim r [
        | err e ↦ pure (requeue_in 10)
        | ok b ↦ if b then rest else pure (requeue_in 10)
      ])
  or_later-Emits rest (err e) k = Emits-pure _
  or_later-Emits rest (ok true) k = k
  or_later-Emits rest (ok false) k = Emits-pure _

  clean_names-Emits : (names : List String) → Emits P (clean_names sv instance' names)
  unfolding clean_names
  clean_names-Emits [] = Emits-pure done
  clean_names-Emits (name ∷ names) =
      let rest : M Outcome = λ w. clean_names sv instance' names w in
      let ih : Emits P rest = record { at = (clean_names-Emits names).at } in
      Emits-bind (is_pod_stale sv instance' name) _
        (is_pod_stale-Emits {P = P} reads sv instance' name)
        (λ stale.
          Emits-if stale _ _
            (λ _.
              Emits-bind (attempt (remove_exclude_node_host sv name)) _
                (Emits-attempt _ (remove_exclude_node_host-Emits {P = P} reads puts sv name))
                (λ r. or_later-Emits rest r ih))
            (λ _. ih))

  pub clean_stale_exclusion_list-Emits : Emits P (clean_stale_exclusion_list sv instance')
  unfolding clean_stale_exclusion_list
  clean_stale_exclusion_list-Emits =
      Emits-bind _ _ (get_excluded_node_names-Emits {P = P} reads sv)
        (λ names. clean_names-Emits names)
