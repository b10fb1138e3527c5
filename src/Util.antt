-- ===== src/Util.antt =====
-- pkg/reconcilers/util/util.go: the count of data nodes, and the removal of stale exclusions.
pub mod Writes
pub mod Stale
use opensearch_k8s_operator.Prelude.{
  ℕ, zero, suc, ◌+◌, Bool, true, false, not, Option, none, some, List, [], ◌∷◌, String, ◌<>◌, ◌==◌,
  if◌then◌else◌,
}
use opensearch_k8s_operator.Prelude.Int.{ℤ, pos, ◌+ℤ◌}
use opensearch_k8s_operator.Api.{
  Error, not_found, conflict, panic, api, failed, NodePool, Cluster, StatefulSet, Pod, Outcome,
}
use opensearch_k8s_operator.Exec.{M, Result, ok, err, pure, raise, attempt, ◌>>=◌, ◌>>◌}
use opensearch_k8s_operator.Services.{Services}
use opensearch_k8s_operator.Services.Calls.{get_stateful_set, get_pod}
use opensearch_k8s_operator.Helpers.Roles.{sts_name, has_data_role}
use opensearch_k8s_operator.Helpers.Pods.{replicas_or_one, rounds, replica_host_name}
use opensearch_k8s_operator.Gateway.Exclusion.{get_excluded_node_names, remove_exclude_node_host}

abbrev pub done : Outcome
done = record { requeue = false; requeue_after = 0 }

abbrev pub requeue_in : ℕ → Outcome
requeue_in seconds = record { requeue = true; requeue_after = seconds }

-- The label of the revision of a pod that a StatefulSet owns, compared with the updated revision.
abbrev pub updated : StatefulSet → Pod → M Bool
updated sts pod = elim pod.revision [
  | none ↦ raise (failed ("pod " <> (pod.name <> " has no controller-revision-hash label")))
  | some rev ↦ pure (rev == sts.update_revision)
]

abbrev pub add_replicas : ℤ → Result Error StatefulSet → ℤ
add_replicas count (ok sts) = count +ℤ replicas_or_one sts
add_replicas count (err e) = count

-- Whether one of the ordinals from `i` on, as many as the rounds left, gives the name.
unfoldable pub owns_from : ℕ → ℕ → StatefulSet → String → Bool
owns_from zero i sts pod_name = false
owns_from (suc n) i sts pod_name =
    let rest = owns_from n (i + 1) sts pod_name in
    if replica_host_name sts (pos i) == pod_name then true else rest

unfoldable pub owns : StatefulSet → String → Bool
unfolding owns_from
owns sts pod_name = owns_from (rounds (replicas_or_one sts)) 0 sts pod_name

module _ (sv : Services) (instance' : Cluster) where
  -- A StatefulSet that cannot be read is left out of the count.
  unfoldable pub data_nodes_from : ℤ → List NodePool → M ℤ
  data_nodes_from count [] = pure count
  data_nodes_from count (np ∷ nps) =
      let skip : M ℤ = λ w. data_nodes_from count nps w in
      let more : Result Error StatefulSet → M ℤ =
        λ r w. data_nodes_from (add_replicas count r) nps w in
      if has_data_role np
      then attempt (get_stateful_set sv (sts_name instance' np)) >>= more
      else skip

  unfoldable pub data_nodes_count : M ℤ
  unfolding data_nodes_from
  data_nodes_count = data_nodes_from (pos 0) instance'.node_pools

  -- The loop over the node pools of isPodStale: the first StatefulSet that owns the name decides.
  unfoldable pub stale_by_revision : String → Pod → List NodePool → M Bool
  stale_by_revision pod_name pod [] = pure true
  stale_by_revision pod_name pod (np ∷ nps) =
      let rest : M Bool = λ w. stale_by_revision pod_name pod nps w in
      do
        sts ← get_stateful_set sv (sts_name instance' np)
        if owns sts pod_name then updated sts pod else rest

  abbrev pub stale_if : String → Result Error Pod → M Bool
  stale_if pod_name (ok pod) = stale_by_revision pod_name pod instance'.node_pools
  stale_if pod_name (err not_found) = pure true
  stale_if pod_name (err conflict) = raise conflict
  stale_if pod_name (err panic) = raise panic
  stale_if pod_name (err (api s)) = raise (api s)
  stale_if pod_name (err (failed s)) = raise (failed s)

  unfoldable pub is_pod_stale : String → M Bool
  is_pod_stale pod_name = do found ← attempt (get_pod sv pod_name); stale_if pod_name found

  -- An exclusion that cannot be removed is tried again later, without an error.
  unfoldable pub clean_names : List String → M Outcome
  clean_names [] = pure done
  clean_names (name ∷ names) =
      let rest : M Outcome = λ w. clean_names names w in
      let removed : Result Error Bool → M Outcome = λ r. elim r [
        | err e ↦ pure (requeue_in 10)
        | ok b ↦ if b then rest else pure (requeue_in 10)
      ] in
      do
        stale ← is_pod_stale name
        if stale then attempt (remove_exclude_node_host sv name) >>= removed else rest

  unfoldable pub clean_stale_exclusion_list : M Outcome
  clean_stale_exclusion_list = do excluded ← get_excluded_node_names sv; clean_names excluded
