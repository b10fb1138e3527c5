-- ===== src/Restart/Candidates.antt =====
-- The candidates for a restart, their order, and the count of masters.
pub mod Ordinal
pub mod Choice
use Prim.Native.String.{compare}
use text.Mathlib.Text.{is_lt}
use opensearch_k8s_operator.Prelude.{
  ℕ, Bool, true, false, not, ◌&&◌, ◌||◌, Option, none, some, List, [], ◌∷◌, ◌++◌, String, ◌==◌,
  if◌then◌else◌,
}
use opensearch_k8s_operator.Prelude.Int.{ℤ, pos, negsuc, ◌+ℤ◌, ◌==ℤ◌, ◌<ℤ◌, half}
use opensearch_k8s_operator.Text.{split, last_or, atoi}
use opensearch_k8s_operator.Api.{NodePool, Cluster, StatefulSet, Pod}
use opensearch_k8s_operator.Exec.{M, pure, ◌>>=◌, ◌>>◌}
use opensearch_k8s_operator.Services.{Services}
use opensearch_k8s_operator.Services.Calls.{get_stateful_set}
use opensearch_k8s_operator.Helpers.Roles.{sts_name, has_manager_role}
use opensearch_k8s_operator.Helpers.Pods.{
  replicas_or_one, ready_replicas_for_node_pool, get_pod_with_older_revision,
}

pub record Candidate : Type 0 where
  pub pod_name : String
  pub sts : StatefulSet
  pub node_pool : NodePool
  pub is_master : Bool
  pub ordinal : ℤ

abbrev or_minus_one : Option ℤ → ℤ
or_minus_one none = negsuc 0
or_minus_one (some n) = n

-- strings.Split gives at least one part, so the test for none never holds.
unfoldable pub parse_ordinal_from_name : String → ℤ
parse_ordinal_from_name name = or_minus_one (atoi (last_or "" (split 45 name)))

-- The order of sort.Slice: no masters first, then by the StatefulSet, then the ordinal downwards.
unfoldable pub before : Candidate → Candidate → Bool
before a b =
    if a.is_master
    then (if not b.is_master
        then false
        else if not (a.sts.name == b.sts.name)
        then is_lt (compare a.sts.name b.sts.name)
        else b.ordinal <ℤ a.ordinal)
    else if b.is_master
    then true
    else if not (a.sts.name == b.sts.name)
    then is_lt (compare a.sts.name b.sts.name)
    else b.ordinal <ℤ a.ordinal

-- Sorting by insertion: a result that sort.Slice may give, which leaves the order of equals open.
unfoldable pub insert_candidate : Candidate → List Candidate → List Candidate
insert_candidate c [] = c ∷ []
insert_candidate c (d ∷ ds) =
    let rest = insert_candidate c ds in if before d c then d ∷ rest else c ∷ d ∷ ds

unfoldable pub sort_candidates : List Candidate → List Candidate
unfolding insert_candidate
sort_candidates [] = []
sort_candidates (c ∷ cs) = insert_candidate c (sort_candidates cs)

unfoldable pub first_non_master : Candidate → List Candidate → Candidate
first_non_master next [] = next
first_non_master next (c ∷ cs) =
    let rest = first_non_master next cs in if not c.is_master then c else rest

-- The test for the quorum: `(totalMasters + 1) / 2` must be left behind by more than one.
unfoldable pub min_required : ℤ → ℤ
min_required total_masters = half (total_masters +ℤ pos 1)

unfoldable pub quorum_unsafe : ℤ → ℤ → Bool
unfolding min_required
quorum_unsafe total_masters ready_masters = not (min_required total_masters <ℤ ready_masters)

-- A StatefulSet with pods that wait for the new revision.
unfoldable pub pending_update : StatefulSet → Bool
pending_update sts =
    not (sts.update_revision == "") && not (sts.updated_replicas ==ℤ replicas_or_one sts)

module _ (sv : Services) (instance' : Cluster) where
  abbrev pub candidate_of : StatefulSet → NodePool → Option Pod → List Candidate
  candidate_of sts np none = []
  candidate_of sts np (some pod) =
      record {
        pod_name = pod.name;
        sts = sts;
        node_pool = np;
        is_master = has_manager_role np;
        ordinal = parse_ordinal_from_name pod.name;
      }
      ∷ []

  unfoldable pub candidates_from : List Candidate → List NodePool → M (List Candidate)
  candidates_from candidates [] = pure candidates
  candidates_from candidates (np ∷ nps) =
      let rest : List Candidate → M (List Candidate) =
        λ cs w. candidates_from (candidates ++ cs) nps w in
      do
        sts ← get_stateful_set sv (sts_name instance' np)
        if not (pending_update sts)
            then rest []
            else (do pod ← get_pod_with_older_revision sv sts; rest (candidate_of sts np pod))

  unfoldable pub count_masters_from : ℤ → ℤ → List NodePool → M (ℤ × ℤ)
  count_masters_from total ready [] = pure (total, ready)
  count_masters_from total ready (np ∷ nps) =
      let skip : M (ℤ × ℤ) = λ w. count_masters_from total ready nps w in
      let more : ℤ → ℤ → M (ℤ × ℤ) = λ t r w. count_masters_from (total +ℤ t) (ready +ℤ r) nps w in
      if not (has_manager_role np) then skip else (do
        sts ← get_stateful_set sv (sts_name instance' np)
        ready_replicas ← ready_replicas_for_node_pool sv np
        more (replicas_or_one sts) ready_replicas)

  unfoldable pub count_masters : M (ℤ × ℤ)
  unfolding count_masters_from
  count_masters = count_masters_from (pos 0) (pos 0) instance'.node_pools
