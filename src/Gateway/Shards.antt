-- ===== src/Gateway/Shards.antt =====
-- Which shards a node holds, and which of them are stuck.
pub mod Nodes
pub mod Counting
pub mod Moving
use opensearch_k8s_operator.Prelude.{
  ℕ, zero, suc, ◌+◌, Bool, true, false, not, ◌&&◌, ◌||◌, Option, none, some, List, [], ◌∷◌, String,
  ◌<>◌, ◌==◌, nat_eq, if◌then◌else◌,
}
use opensearch_k8s_operator.Prelude.Int.{ℤ, pos, ◌==ℤ◌, ◌<ℤ◌}
use opensearch_k8s_operator.Text.{trim_space, fields, scan_int, is_empty}
use opensearch_k8s_operator.Api.{
  Error, failed, api, not_found, conflict, panic, Shard, Health, AllocationDecision, NodeDecision,
  AllocationExplain,
}
use opensearch_k8s_operator.Exec.{M, Result, ok, err, pure, raise, attempt, ◌>>=◌, ◌>>◌}
use opensearch_k8s_operator.Services.{Services}
use opensearch_k8s_operator.Services.Calls.{
  cat_indices, cat_shards, cat_named_indices_shards, get_allocation_explain,
}

abbrev pub first_or : String → List String → String
first_or d [] = d
first_or d (f ∷ fs) = f

-- While a shard moves, its node reads "source -> ip id target"; the source is the first field.
unfoldable pub extract_node_name : String → String
extract_node_name String.[] = ""
extract_node_name (String.◌∷◌ c s) =
    let trimmed = trim_space (String.◌∷◌ c s) in first_or trimmed (fields trimmed)

unfoldable pub has_shards_on_node_from_response : List Shard → String → Bool
has_shards_on_node_from_response [] node_name = false
has_shards_on_node_from_response (s ∷ shards) node_name =
    let rest = has_shards_on_node_from_response shards node_name in
    if extract_node_name s.node_name == node_name then true else rest

-- The loop of HasIndexPrimariesOnNode.
unfoldable pub primaries_on_node : List Shard → String → Bool
primaries_on_node [] node_name = false
primaries_on_node (s ∷ shards) node_name =
    let rest = primaries_on_node shards node_name in
    if s.prirep == "p" && not (s.state == "STARTED")
    then true
    else if extract_node_name s.node_name == node_name && s.prirep == "p"
    then true
    else rest

unfoldable pub no_replica : List String → Bool
no_replica [] = false
no_replica (rep ∷ reps) =
    let rest = no_replica reps in if rep == "" || rep == "0" then true else rest

-- The inner loop over the deciders of a node.
unfoldable pub blocked_by_version : List AllocationDecision → Bool
blocked_by_version [] = false
blocked_by_version (d ∷ ds) =
    let rest = blocked_by_version ds in
    if d.decision == "NO" && d.decider == "node_version" then true else rest

unfoldable pub has_node_version_mismatch : List NodeDecision → Bool
has_node_version_mismatch [] = false
has_node_version_mismatch (n ∷ ns) =
    let rest = has_node_version_mismatch ns in
    if n.decision == "no" then (if blocked_by_version n.deciders then true else rest) else rest

-- The verdict of DetectShardStuckVersionMismatch on an explanation.
unfoldable pub stuck_by_version : AllocationExplain → Bool
stuck_by_version explain =
    let cannot_allocate = explain.current_state == "unassigned" && explain.can_allocate == "no" in
    let assigned = explain.current_state == "assigned" || explain.current_state == "started" in
    let cannot_move =
      assigned
      && explain.can_remain_on_current_node == "no"
      && explain.can_move_to_other_node == "no" in
    if not (cannot_allocate || cannot_move)
    then false
    else has_node_version_mismatch explain.node_allocation_decisions

abbrev pub shard_number : Shard → M ℤ
shard_number shard = if is_empty shard.number then pure (pos 0) else elim (scan_int shard.number) [
  | none ↦ raise (failed ("could not parse shard number for " <> shard.index))
  | some n ↦ pure n
]

module _ (sv : Services) where
  unfoldable pub has_indices_with_no_replica : M Bool
  has_indices_with_no_replica = do reps ← cat_indices sv; pure (no_replica reps)

  unfoldable pub has_shards_on_node : String → M Bool
  has_shards_on_node node_name = do
    shards ← cat_shards sv
    pure (has_shards_on_node_from_response shards node_name)

  unfoldable pub has_index_primaries_on_node : String → List String → M Bool
  has_index_primaries_on_node node_name indices = do
    shards ← cat_named_indices_shards sv indices
    pure (primaries_on_node shards node_name)

  abbrev pub explained : Shard → Result Error AllocationExplain → M AllocationExplain
  explained shard (ok e) = pure e
  explained shard (err e) = raise (failed ("could not get allocation explain for " <> shard.index))

  unfoldable pub detect_shard_stuck_version_mismatch : Shard → M Bool
  detect_shard_stuck_version_mismatch shard = do
    number ← shard_number shard
    answer ← attempt (get_allocation_explain sv shard.index number (shard.prirep == "p"))
    explain ← explained shard answer
    pure (stuck_by_version explain)

  -- The loop of CheckPodSafeToDelete, with its two counters.
  unfoldable pub count_on_node : String → ℕ → ℕ → List Shard → M (ℕ × ℕ)
  count_on_node node_name on_node stuck [] = pure (on_node, stuck)
  count_on_node node_name on_node stuck (s ∷ shards) =
      let elsewhere : M (ℕ × ℕ) = λ w. count_on_node node_name on_node stuck shards w in
      let primary : M (ℕ × ℕ) = λ w. count_on_node node_name (on_node + 1) stuck shards w in
      let replica : Bool → M (ℕ × ℕ) = λ is_stuck w.
        count_on_node node_name (on_node + 1) (if is_stuck then stuck + 1 else stuck) shards w in
      if s.node_name == node_name
      then (if s.prirep == "r" then detect_shard_stuck_version_mismatch s >>= replica else primary)
      else elsewhere

  unfoldable pub check_pod_safe_to_delete : String → M Bool
  check_pod_safe_to_delete node_name = do
    shards ← cat_shards sv
    counts ← count_on_node node_name 0 0 shards
    pure (nat_eq counts.1 counts.0)

  -- The unassigned replicas of an index that are stuck, added to the count so far.
  unfoldable pub count_stuck_replicas : ℕ → List Shard → M ℕ
  count_stuck_replicas n [] = pure n
  count_stuck_replicas n (s ∷ shards) =
      let skip : M ℕ = λ w. count_stuck_replicas n shards w in
      let more : Bool → M ℕ =
        λ is_stuck w. count_stuck_replicas (if is_stuck then n + 1 else n) shards w in
      if s.state == "UNASSIGNED" && s.prirep == "r"
      then detect_shard_stuck_version_mismatch s >>= more
      else skip

  unfoldable pub count_stuck_on_yellow : ℕ → List (String × String) → M ℕ
  count_stuck_on_yellow n [] = pure n
  count_stuck_on_yellow n ((index, status) ∷ indices) =
      let skip : M ℕ = λ w. count_stuck_on_yellow n indices w in
      let more : ℕ → M ℕ = λ m w. count_stuck_on_yellow m indices w in
      if status == "yellow"
      then (do
        shards ← cat_named_indices_shards sv (index ∷ [])
        m ← count_stuck_replicas n shards
        more m)
      else skip

  unfoldable pub check_cluster_restart_on_yellow : Health → M Bool
  check_cluster_restart_on_yellow health =
      if not (health.status == "yellow")
      then pure false
      else if (pos 0 <ℤ health.relocating_shards) || (pos 0 <ℤ health.initializing_shards)
      then pure false
      else (do
        stuck ← count_stuck_on_yellow 0 health.indices
        pure (health.unassigned_shards ==ℤ pos stuck))
