-- ===== src/Tests/Restart.antt =====
-- The rolling restart at concrete inputs.
use mathlib.Core.List.{Perm}
use opensearch_k8s_operator.Prelude.{
  ℕ, ◌≡◌, ◌↔◌, ◌<◌, ◌+◌, ◌*◌, ◌-◌, refl, true, false, [], ◌∷◌, All, arith,
}
use opensearch_k8s_operator.Prelude.Int.{pos}
use opensearch_k8s_operator.Api.{Cluster}
use opensearch_k8s_operator.Exec.Adds.{Adds}
use opensearch_k8s_operator.Exec.Kinds.{deletion}
use opensearch_k8s_operator.Helpers.Pods.{replica_host_name}
use opensearch_k8s_operator.Restart.Candidates.{
  Candidate, parse_ordinal_from_name, sort_candidates, insert_candidate, before, first_non_master,
  quorum_unsafe,
}
use opensearch_k8s_operator.Restart.Candidates.Ordinal.{parse_ordinal_from_name-replica_host_name}
use opensearch_k8s_operator.Restart.Candidates.Choice.{
  sort_candidates-masters, quorum_unsafe_odd, quorum_unsafe_even,
}
use opensearch_k8s_operator.Restart.Run.{reconcile}
use opensearch_k8s_operator.Restart.Run.Single.{reconcile-one_pod}
use opensearch_k8s_operator.Tests.Data.{services, cluster, masters, set_of}

-- The restart of a cluster that is at its version.
abbrev restarted : Cluster
restarted = record cluster { version = "11" }

reconcile-one_pod_example : Adds deletion 1 (reconcile services restarted)
reconcile-one_pod_example = reconcile-one_pod services restarted

abbrev master : ℕ → Candidate
master n = record {
  pod_name = replica_host_name (set_of "os-masters") (pos n);
  sts = set_of "os-masters";
  node_pool = masters;
  is_master = true;
  ordinal = pos n;
}

sort_candidates-masters_example :
    Perm (master 2 ∷ master 0 ∷ []) (master 0 ∷ master 2 ∷ [])
    × All (λ d. d.is_master ≡ true) (master 2 ∷ master 0 ∷ [])
    × (first_non_master (master 2) (master 2 ∷ master 0 ∷ []) ≡ master 2)
unfolding sort_candidates insert_candidate before
sort_candidates-masters_example =
    sort_candidates-masters (master 0 ∷ master 2 ∷ []) (master 2) (master 0 ∷ []) refl refl

quorum_unsafe_odd_example :
    (quorum_unsafe (pos (2 * 2 + 1)) (pos 4) ≡ false) ↔ (2 * 2 + 1 < 2 * (4 - 1))
quorum_unsafe_odd_example = quorum_unsafe_odd 2 4 (omega arith)

quorum_unsafe_even_example :
    (quorum_unsafe (pos (2 * 2)) (pos (2 + 1)) ≡ false) × ¬ (2 * 2 < 2 * (2 + 1 - 1))
quorum_unsafe_even_example = quorum_unsafe_even 2 (omega arith)

parse_ordinal_from_name-replica_host_name_example :
    parse_ordinal_from_name (replica_host_name (set_of "os-data-7") (pos 12)) ≡ pos 12
parse_ordinal_from_name-replica_host_name_example =
    parse_ordinal_from_name-replica_host_name (set_of "os-data-7") 12 (omega arith)
