-- ===== src/Scaler/Node/Drain.antt =====
-- When the phase Drained is written.
use opensearch_k8s_operator.Prelude.{
  ◌≡◌, refl, true, none, some, List, [], ◌∷◌, In, In-append_right, String, eq_refl, Bool-cases, inl,
  inr, ◌↔◌, if◌then◌else◌,
}
use opensearch_k8s_operator.Prelude.Int.{ℤ, pos, ◌-ℤ◌}
use opensearch_k8s_operator.Api.{
  Error, not_found, conflict, panic, api, failed, Shard, ComponentStatus, ClusterStatus, Cluster,
  StatefulSet,
}
use opensearch_k8s_operator.Exec.{read, status_put, History, World, Result, ok, err, log}
use opensearch_k8s_operator.Services.{Services}
use opensearch_k8s_operator.Services.Calls.{update_status}
use opensearch_k8s_operator.Services.Status.{update_status-accepted}
use opensearch_k8s_operator.Helpers.Status.{remove_it, replace}
use opensearch_k8s_operator.Helpers.Pods.{replica_host_name}
use opensearch_k8s_operator.Gateway.Shards.{
  extract_node_name, has_shards_on_node, has_shards_on_node_from_response,
}
use opensearch_k8s_operator.Gateway.Shards.Nodes.{has_shards_on_node_iff}
use opensearch_k8s_operator.Scaler.Node.{with_components, scaler_status, target_or, drain_node}

-- The answer of _cat/shards names a shard on the node, or its client panics.
abbrev pub Holds : String → Result Error (List Shard) → Type 0
Holds node_name (ok shards) =
    (s : Shard) × In s shards × (extract_node_name s.node_name ≡ node_name)
Holds node_name (err panic) = Unit {0}
Holds node_name (err not_found) = ⊥
Holds node_name (err conflict) = ⊥
Holds node_name (err (api s)) = ⊥
Holds node_name (err (failed s)) = ⊥

-- The last thing that happened is that a status was written which has the component status.
abbrev pub Marked : ComponentStatus → World → Type 0
Marked added w =
    (s : ClusterStatus) × (es : History) × (w.history ≡ status_put s true ∷ es)
    × In added s.components_status

-- The last node of a StatefulSet with `r` replicas.
abbrev pub last_of : StatefulSet → ℤ → String
last_of sts r = replica_host_name sts (r -ℤ pos 1)

abbrev pub drained_status : StatefulSet → String → ℤ → ComponentStatus
drained_status sts group r = scaler_status "Drained" group (last_of sts r ∷ [])

replace-In :
    (old added : ComponentStatus) (vs : List ComponentStatus) → In added (replace old added vs)
unfolding replace
replace-In old added vs = In-append_right added (remove_it old vs) (added ∷ []) (inl refl)

module _ (sv : Services) (fresh : History → Cluster)
    (get_cluster : (h : History) → sv.get_cluster h ≡ ok (fresh h))
    (put_status : (h : History) (s : ClusterStatus) → sv.put_status h s ≡ none)
    (cs : ComponentStatus) (sts : StatefulSet) (group : String) (r : ℤ) (w : World) where
  abbrev last : String
  last = last_of sts r

  abbrev drained : ComponentStatus
  drained = drained_status sts group r

  -- The two reads of drainNode.
  abbrev asked : World
  asked = log (log w (read "CreateClientForCluster")) (read "CatShards")

  abbrev mark_drained : World × Result Error (Unit {0})
  mark_drained = update_status sv (with_components (replace cs drained)) asked

  -- What a run of drainNode comes to, from the answer of _cat/shards.
  abbrev drained_by : Result Error (List Shard) → World × Result Error (Unit {0})
  drained_by (ok shards) =
      if has_shards_on_node_from_response shards last then (asked, ok tt) else mark_drained
  drained_by (err panic) = (asked, err panic)
  drained_by (err not_found) = mark_drained
  drained_by (err conflict) = mark_drained
  drained_by (err (api s)) = mark_drained
  drained_by (err (failed s)) = mark_drained

  drain_node_lem :
      (answer : Result Error (List Shard))
      → sts.replicas ≡ some r
      → target_or last cs.conditions ≡ last
      → sv.create_client w.history ≡ none
      → sv.cat_shards (read "CreateClientForCluster" ∷ w.history) ≡ answer
      → drain_node sv cs sts group w ≡ drained_by answer
  unfolding drain_node has_shards_on_node
  drain_node_lem (ok shards) e c k h =
      elim (Bool-cases (has_shards_on_node_from_response shards last)) [
        | inl b ↦ simp (e, c, eq_refl, k, h, b)
        | inr b ↦ simp (e, c, eq_refl, k, h, b)
      ]
  drain_node_lem (err panic) e c k h = simp (e, c, eq_refl, k, h)
  drain_node_lem (err not_found) e c k h = simp (e, c, eq_refl, k, h)
  drain_node_lem (err conflict) e c k h = simp (e, c, eq_refl, k, h)
  drain_node_lem (err (api s)) e c k h = simp (e, c, eq_refl, k, h)
  drain_node_lem (err (failed s)) e c k h = simp (e, c, eq_refl, k, h)

  mark_drained-Marked : Marked drained mark_drained.0
  mark_drained-Marked =
      let f = with_components (replace cs drained) in
      let s = (f (fresh asked.history)).status in
      rw (update_status-accepted sv fresh get_cluster put_status f asked) (
        s,
        read "GetOpenSearchCluster" ∷ asked.history,
        refl,
        replace-In cs drained (fresh asked.history).status.components_status,
      )

  asked-Marked : ¬ Marked drained asked
  asked-Marked (s, es, e, i) = cc

  drained_by-Marked :
      (answer : Result Error (List Shard))
      → Marked drained (drained_by answer).0 ↔ (¬ Holds last answer)
  drained_by-Marked (ok shards) =
      let named = has_shards_on_node_iff shards last in
      elim (Bool-cases (has_shards_on_node_from_response shards last)) [
        | inl e ↦ rw e ((λ m. absurd (asked-Marked m)), (λ no. absurd (no (named.0 e))))
        | inr e ↦ rw e ((λ m h. let x = named.1 h in cc), (λ no. mark_drained-Marked))
      ]
  drained_by-Marked (err panic) = ((λ m. absurd (asked-Marked m)), (λ no. absurd (no tt)))
  drained_by-Marked (err not_found) = ((λ m h. h), (λ no. mark_drained-Marked))
  drained_by-Marked (err conflict) = ((λ m h. h), (λ no. mark_drained-Marked))
  drained_by-Marked (err (api s)) = ((λ m h. h), (λ no. mark_drained-Marked))
  drained_by-Marked (err (failed s)) = ((λ m h. h), (λ no. mark_drained-Marked))

  -- Let the phase name the last node of the StatefulSet, or none, let a client be made, and let the
  -- cluster be readable and every write of its status be accepted. Then a run of drainNode ends with
  -- a status that names the node as drained exactly if the answer of _cat/shards has no shard on that
  -- node or is an error that is no panic.
  pub drain_node-marks :
      (answer : Result Error (List Shard))
      → sts.replicas ≡ some r
      → target_or (last_of sts r) cs.conditions ≡ last_of sts r
      → sv.create_client w.history ≡ none
      → sv.cat_shards (read "CreateClientForCluster" ∷ w.history) ≡ answer
      → Marked (drained_status sts group r) (drain_node sv cs sts group w).0
        ↔ (¬ Holds (last_of sts r) answer)
  drain_node-marks answer e c k h = rw (drain_node_lem answer e c k h) (drained_by-Marked answer)
