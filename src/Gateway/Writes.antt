-- ===== src/Gateway/Writes.antt =====
-- The gateway reads, and changes nothing but the settings of OpenSearch: its actions meet every
-- predicate on events that reads, and changes of the settings, meet.
use opensearch_k8s_operator.Prelude.{
  ℕ, ◌+◌, Bool, true, false, not, ◌&&◌, Option, none, some, List, [], ◌∷◌, ◌++◌, String, ◌==◌,
  if◌then◌else◌,
}
use opensearch_k8s_operator.Prelude.Int.{ℤ, pos, ◌==ℤ◌}
use opensearch_k8s_operator.Text.{scan_int, is_empty}
use opensearch_k8s_operator.Api.{Error, Shard, Health, AllocationExplain}
use opensearch_k8s_operator.Api.Json.{Value, null, text, other, object, Fields}
use opensearch_k8s_operator.Exec.{Event, read, settings_put, Result, ok, err, pure, raise}
use opensearch_k8s_operator.Exec.Emits.{
  Emits, Emits-pure, Emits-raise, Emits-query, Emits-command, Emits-bind, Emits-attempt, Emits-if,
}
use opensearch_k8s_operator.Services.{Services}
use opensearch_k8s_operator.Services.Calls.{cat_named_indices_shards, index_exists}
use opensearch_k8s_operator.Gateway.Settings.{set_cluster_shard_allocation, primaries}
use opensearch_k8s_operator.Gateway.Exclusion.{
  current_exclusion, append_exclude_node_host, remove_exclude_node_host, get_excluded_node_names,
  write_without,
}
use opensearch_k8s_operator.Gateway.Shards.{
  shard_number, explained, detect_shard_stuck_version_mismatch, count_on_node,
  check_pod_safe_to_delete, count_stuck_replicas, count_stuck_on_yellow,
  check_cluster_restart_on_yellow, has_shards_on_node, has_index_primaries_on_node,
}
use opensearch_k8s_operator.Gateway.Health.{
  enable_allocation, check_cluster_status_for_restart, reactivate_shard_allocation,
}
use opensearch_k8s_operator.Gateway.Prepare.{
  existing_indices, get_existing_system_indices, prepare_pod_for_delete,
}

module _ {P : Event → Type 0} where
  current_exclusion-Emits : (v : Option Value) → Emits P (current_exclusion v)
  current_exclusion-Emits none = Emits-pure none
  current_exclusion-Emits (some (text String.[])) = Emits-pure none
  current_exclusion-Emits (some (text (String.◌∷◌ c s))) = Emits-pure (some (String.◌∷◌ c s))
  current_exclusion-Emits (some null) = Emits-raise _
  current_exclusion-Emits (some other) = Emits-raise _
  current_exclusion-Emits (some (object fs)) = Emits-raise _

  scanned-Emits :
      (index : String) (n : Option ℤ)
      → Emits {A = ℤ} P (elim n [ none ↦ raise (Error.failed index) | some n ↦ pure n ])
  scanned-Emits index none = Emits-raise _
  scanned-Emits index (some n) = Emits-pure n

  explained-Emits :
      (sv : Services) (shard : Shard) (r : Result Error AllocationExplain)
      → Emits P (explained sv shard r)
  explained-Emits sv shard (ok e) = Emits-pure e
  explained-Emits sv shard (err e) = Emits-raise _

module _ {P : Event → Type 0} (reads : (call : String) → P (read call)) (sv : Services) where
  shard_number-Emits : (shard : Shard) → Emits P (shard_number shard)
  shard_number-Emits shard =
      Emits-if (is_empty shard.number) _ _ (λ _. Emits-pure _)
        (λ _. scanned-Emits _ (scan_int shard.number))

  detect-Emits : (shard : Shard) → Emits P (detect_shard_stuck_version_mismatch sv shard)
  unfolding detect_shard_stuck_version_mismatch
  detect-Emits shard = search (
    Emits-bind, Emits-query, Emits-attempt, Emits-pure, shard_number-Emits, explained-Emits, reads,
  )

  pub has_shards_on_node-Emits : (name : String) → Emits P (has_shards_on_node sv name)
  unfolding has_shards_on_node
  has_shards_on_node-Emits name = search (Emits-bind, Emits-query, Emits-pure, reads)

  pub get_excluded_node_names-Emits : Emits P (get_excluded_node_names sv)
  unfolding get_excluded_node_names
  get_excluded_node_names-Emits =
      search (Emits-bind, Emits-query, Emits-pure, current_exclusion-Emits, reads)

  has_index_primaries_on_node-Emits :
      (name : String) (indices : List String)
      → Emits P (has_index_primaries_on_node sv name indices)
  unfolding has_index_primaries_on_node
  has_index_primaries_on_node-Emits name indices =
      search (Emits-bind, Emits-query, Emits-pure, reads)

  count_on_node-Emits :
      (name : String) (n k : ℕ) (shards : List Shard) → Emits P (count_on_node sv name n k shards)
  unfolding count_on_node
  count_on_node-Emits name n k [] = Emits-pure (n, k)
  count_on_node-Emits name n k (s ∷ shards) =
      Emits-if (s.node_name == name) _ _
        (λ _.
          Emits-if (s.prirep == "r") _ _
            (λ _. Emits-bind (detect_shard_stuck_version_mismatch sv s) _ (detect-Emits s) (λ b.
              record {
                at = (count_on_node-Emits name (n + 1) (if b then k + 1 else k) shards).at;
              }))
            (λ _. record { at = (count_on_node-Emits name (n + 1) k shards).at }))
        (λ _. record { at = (count_on_node-Emits name n k shards).at })

  check_pod_safe_to_delete-Emits : (name : String) → Emits P (check_pod_safe_to_delete sv name)
  unfolding check_pod_safe_to_delete
  check_pod_safe_to_delete-Emits name =
      search (Emits-bind, Emits-query, Emits-pure, count_on_node-Emits, reads)

  count_stuck_replicas-Emits :
      (n : ℕ) (shards : List Shard) → Emits P (count_stuck_replicas sv n shards)
  unfolding count_stuck_replicas
  count_stuck_replicas-Emits n [] = Emits-pure n
  count_stuck_replicas-Emits n (s ∷ shards) =
      Emits-if (s.state == "UNASSIGNED" && s.prirep == "r") _ _
        (λ _.
          Emits-bind (detect_shard_stuck_version_mismatch sv s) _ (detect-Emits s)
            (λ b. record { at = (count_stuck_replicas-Emits (if b then n + 1 else n) shards).at }))
        (λ _. record { at = (count_stuck_replicas-Emits n shards).at })

  count_stuck_on_yellow-Emits :
      (n : ℕ) (indices : List (String × String)) → Emits P (count_stuck_on_yellow sv n indices)
  unfolding count_stuck_on_yellow
  count_stuck_on_yellow-Emits n [] = Emits-pure n
  count_stuck_on_yellow-Emits n ((index, status) ∷ indices) =
      Emits-if (status == "yellow") _ _
        (λ _.
          Emits-bind (cat_named_indices_shards sv (index ∷ [])) _
            (Emits-query _ (λ h. sv.cat_named_indices_shards h (index ∷ [])) (reads _))
            (λ shards.
              Emits-bind (count_stuck_replicas sv n shards) _ (count_stuck_replicas-Emits n shards)
                (λ m. record { at = (count_stuck_on_yellow-Emits m indices).at })))
        (λ _. record { at = (count_stuck_on_yellow-Emits n indices).at })

  check_cluster_restart_on_yellow-Emits :
      (health : Health) → Emits P (check_cluster_restart_on_yellow sv health)
  unfolding check_cluster_restart_on_yellow
  check_cluster_restart_on_yellow-Emits health =
      search (Emits-if, Emits-bind, Emits-pure, count_stuck_on_yellow-Emits)

  existing_indices-Emits :
      (existing indices : List String) → Emits P (existing_indices sv existing indices)
  unfolding existing_indices
  existing_indices-Emits existing [] = Emits-pure existing
  existing_indices-Emits existing (index ∷ indices) =
      Emits-bind (index_exists sv index) _ (Emits-query _ (λ h. sv.index_exists h index) (reads _))
        (λ b. record {
          at =
              (existing_indices-Emits (if b then existing ++ (index ∷ []) else existing)
                indices).at;
        })

  get_existing_system_indices-Emits : Emits P (get_existing_system_indices sv)
  unfolding get_existing_system_indices
  get_existing_system_indices-Emits = existing_indices-Emits _ _

module _ {P : Event → Type 0} (reads : (call : String) → P (read call))
    (puts : (p t : Fields) (b : Bool) → P (settings_put p t b)) (sv : Services) where
  set_cluster_shard_allocation-Emits : (e : _) → Emits P (set_cluster_shard_allocation sv e)
  unfolding set_cluster_shard_allocation
  set_cluster_shard_allocation-Emits e = Emits-command _ _ (puts _ _)

  enable_allocation-Emits : (drain : Bool) → Emits P (enable_allocation sv drain)
  unfolding enable_allocation
  enable_allocation-Emits true = Emits-pure _
  enable_allocation-Emits false =
      search
        (Emits-if, Emits-bind, Emits-query, Emits-pure, set_cluster_shard_allocation-Emits, reads)

  pub check_cluster_status_for_restart-Emits :
      (drain : Bool) → Emits P (check_cluster_status_for_restart sv drain)
  unfolding check_cluster_status_for_restart
  check_cluster_status_for_restart-Emits drain =
      search
        (
          Emits-if,
          Emits-bind,
          Emits-query,
          Emits-pure,
          enable_allocation-Emits,
          check_cluster_restart_on_yellow-Emits {P = P} reads sv,
          reads,
        )
        depth 12

  pub reactivate_shard_allocation-Emits : Emits P (reactivate_shard_allocation sv)
  unfolding reactivate_shard_allocation
  reactivate_shard_allocation-Emits =
      search
        (Emits-if, Emits-bind, Emits-query, Emits-pure, set_cluster_shard_allocation-Emits, reads)

  pub append_exclude_node_host-Emits : (name : String) → Emits P (append_exclude_node_host sv name)
  unfolding append_exclude_node_host
  append_exclude_node_host-Emits name =
      search
        (Emits-bind, Emits-query, Emits-command, Emits-pure, current_exclusion-Emits, reads, puts)

  write_without-Emits : (name : String) (v : Option String) → Emits P (write_without sv name v)
  write_without-Emits name none = Emits-pure true
  write_without-Emits name (some val) = search (Emits-bind, Emits-command, Emits-pure, puts)

  pub remove_exclude_node_host-Emits : (name : String) → Emits P (remove_exclude_node_host sv name)
  unfolding remove_exclude_node_host
  remove_exclude_node_host-Emits name =
      search (Emits-bind, Emits-query, current_exclusion-Emits, write_without-Emits, reads)

  pub prepare_pod_for_delete-Emits :
      (name : String) (drain : Bool) (n : ℤ) → Emits P (prepare_pod_for_delete sv name drain n)
  unfolding prepare_pod_for_delete
  prepare_pod_for_delete-Emits name drain n =
      Emits-if drain _ _
        (λ _.
          Emits-bind (append_exclude_node_host sv name) _ (append_exclude_node_host-Emits name)
            (λ _.
              Emits-if (n ==ℤ pos 2) _ _
                (λ _.
                  Emits-bind (get_existing_system_indices sv) _
                    (get_existing_system_indices-Emits {P = P} reads sv)
                    (λ indices.
                      Emits-bind (has_index_primaries_on_node sv name indices) _
                        (has_index_primaries_on_node-Emits {P = P} reads sv name indices)
                        (λ b. Emits-pure (not b))))
                (λ _. check_pod_safe_to_delete-Emits {P = P} reads sv name)))
        (λ _.
          Emits-bind (set_cluster_shard_allocation sv primaries) _
            (set_cluster_shard_allocation-Emits primaries) (λ _. Emits-pure true))
