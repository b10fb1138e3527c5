-- ===== src/Helpers/Pods.antt =====
-- Pods of node pools and of StatefulSets: names, readiness and revisions.
pub mod Reads
use opensearch_k8s_operator.Prelude.{
  ℕ, zero, suc, ◌+◌, Bool, true, false, not, ◌&&◌, Option, none, some, List, [], ◌∷◌, String, ◌<>◌,
  ◌==◌, if◌then◌else◌,
}
use opensearch_k8s_operator.Prelude.Int.{ℤ, pos, negsuc, i32}
use opensearch_k8s_operator.Text.{show_ℤ}
use opensearch_k8s_operator.Api.{Error, failed, NodePool, StatefulSet, Condition, Container, Pod}
use opensearch_k8s_operator.Exec.{M, pure, raise, ◌>>=◌, ◌>>◌}
use opensearch_k8s_operator.Services.{Services}
use opensearch_k8s_operator.Services.Calls.{list_pods, get_pod, delete_pod}

-- ptr.Deref(p, 1) and lo.FromPtrOr(p, 1)
abbrev pub replicas_or_one : StatefulSet → ℤ
replicas_or_one sts = elim sts.replicas [ none ↦ pos 1 | some n ↦ n ]

-- How often `for i := 0; i < n; i++` runs.
abbrev pub rounds : ℤ → ℕ
rounds (pos n) = n
rounds (negsuc n) = 0

unfoldable pub replica_host_name : StatefulSet → ℤ → String
replica_host_name current_sts rep_num = current_sts.name <> ("-" <> show_ℤ rep_num)

-- The inner loop of CountRunningPodsForNodePool.
unfoldable pub pod_ready : List Condition → Bool
pod_ready [] = false
pod_ready (c ∷ cs) =
    let rest = pod_ready cs in if c.kind == "Ready" && c.status == "True" then true else rest

unfoldable pub count_existing : ℕ → List Pod → ℕ
count_existing n [] = n
count_existing n (pod ∷ pods) = count_existing (if pod.terminating then n else n + 1) pods

unfoldable pub count_ready : ℕ → List Pod → ℕ
unfolding pod_ready
count_ready n [] = n
count_ready n (pod ∷ pods) =
    count_ready (if pod.terminating then n else if pod_ready pod.conditions then n + 1 else n) pods

-- The label of the revision, or the error of a pod that lacks it.
abbrev pub revision_of : Pod → String → M String
revision_of pod name = elim pod.revision [
  | none ↦ raise (failed ("pod " <> (name <> " has no revision label")))
  | some rev ↦ pure rev
]

abbrev pub pod_name_or_error : Option Pod → M String
pod_name_or_error none = raise (failed "unable to calculate the working pod for rolling restart")
pod_name_or_error (some pod) = pure pod.name

abbrev pub crash_looping : Container → Bool
crash_looping c =
    not c.ready && elim c.waiting_reason [ none ↦ false | some r ↦ r == "CrashLoopBackOff" ]

unfoldable pub any_crash_looping : List Container → Bool
any_crash_looping [] = false
any_crash_looping (c ∷ cs) =
    let rest = any_crash_looping cs in if crash_looping c then true else rest

module _ (sv : Services) where
  unfoldable pub count_existing_pods_for_node_pool : NodePool → M ℕ
  count_existing_pods_for_node_pool node_pool = do
    pods ← list_pods sv node_pool.component
    pure (count_existing 0 pods)

  unfoldable pub count_running_pods_for_node_pool : NodePool → M ℕ
  count_running_pods_for_node_pool node_pool = do
    pods ← list_pods sv node_pool.component
    pure (count_ready 0 pods)

  unfoldable pub ready_replicas_for_node_pool : NodePool → M ℤ
  unfolding count_running_pods_for_node_pool
  ready_replicas_for_node_pool node_pool = do
    n ← count_running_pods_for_node_pool node_pool
    pure (i32 (pos n))

  -- The loop of GetPodWithOlderRevision, with the rounds left and the ordinal.
  unfoldable pub older_revision_from : ℕ → ℕ → StatefulSet → M (Option Pod)
  older_revision_from zero i sts = pure none
  older_revision_from (suc n) i sts =
      let rest : M (Option Pod) = λ w. older_revision_from n (i + 1) sts w in
      do
        pod ← get_pod sv (replica_host_name sts (pos i))
        rev ← revision_of pod (replica_host_name sts (pos i))
        if not (rev == sts.update_revision) then pure (some pod) else rest

  unfoldable pub get_pod_with_older_revision : StatefulSet → M (Option Pod)
  unfolding older_revision_from
  get_pod_with_older_revision sts = older_revision_from (rounds (replicas_or_one sts)) 0 sts

  unfoldable pub working_pod_for_rolling_restart : StatefulSet → M String
  unfolding get_pod_with_older_revision
  working_pod_for_rolling_restart sts = do
    found ← get_pod_with_older_revision sts
    pod_name_or_error found

  abbrev delete_if_stuck : Option Pod → M (Unit {0})
  delete_if_stuck none = pure tt
  delete_if_stuck (some pod) =
      if any_crash_looping pod.containers then delete_pod sv pod.name else pure tt

  unfoldable pub delete_stuck_pod_with_older_revision : StatefulSet → M (Unit {0})
  unfolding get_pod_with_older_revision any_crash_looping
  delete_stuck_pod_with_older_revision sts = do
    found ← get_pod_with_older_revision sts
    delete_if_stuck found
