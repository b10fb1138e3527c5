-- ===== src/Gateway/Shards/Moving.antt =====
-- Shards that move away from a node, before the two questions on a node.
use opensearch_k8s_operator.Prelude.{
  ℕ, ◌≡◌, ◌≢◌, ◌∙◌, sym, ap, refl, inl, inr, true, List, [], ◌∷◌, String, ◌<>◌, ◌==◌, eq_iff,
  nat_eq, Bool-cases, All,
}
use opensearch_k8s_operator.Text.Trim.{Spaceless}
use opensearch_k8s_operator.Api.{Shard}
use opensearch_k8s_operator.Exec.{read, World, ok, continue, log, pure}
use opensearch_k8s_operator.Services.{Services}
use opensearch_k8s_operator.Gateway.Shards.{
  extract_node_name, has_shards_on_node, count_on_node, check_pod_safe_to_delete,
}
use opensearch_k8s_operator.Gateway.Shards.Nodes.{
  moving_from, extract_node_name-moving_from, has_shards_on_node_iff,
}
use Prim.Native.Char.{Char}
use Prim.Native.String.append

tail_of : {c : Char} {s t : String} → String.◌∷◌ c s ≡ String.◌∷◌ c t → s ≡ t
tail_of e = cc

longer : (n : String) (c : Char) (s : String) → n <> String.◌∷◌ c s ≢ n
longer String.[] c s = rw append.nil (cc)
longer (String.◌∷◌ d n) c s = rw append.cons (λ e. longer n c s (tail_of e))

moving_from_differs : (n target : String) → moving_from n target ≢ n
moving_from_differs n target = rw (append.cons " " "-> " target) (longer n " " ("-> " <> target))

-- The shard moves away from the node.
abbrev pub MovesFrom : String → Shard → Type 0
MovesFrom n s = (target : String) × (s.node_name ≡ moving_from n target)

module _ (sv : Services) (name : String) where
  count_on_node_elsewhere :
      (n k : ℕ) (shards : List Shard) (w : World)
      → All (MovesFrom name) shards
      → count_on_node sv name n k shards w ≡ (w, ok (n, k))
  unfolding count_on_node
  count_on_node_elsewhere n k [] w h = refl
  count_on_node_elsewhere n k (s ∷ shards) w h = elim (Bool-cases (s.node_name == name)) [
    | inl e ↦ absurd (moving_from_differs name h.0.0 (sym h.0.1 ∙ (eq_iff s.node_name name).0 e))
    | inr e ↦ rw e (count_on_node_elsewhere n k shards w h.1)
  ]

  -- Let every shard in the answer of _cat/shards move away from the node, of which there is at
  -- least one. Then HasShardsOnNode says that the node holds shards, while CheckPodSafeToDelete
  -- says that its pod may be deleted.
  pub check_pod_safe_to_delete-moving :
      (s : Shard) (shards : List Shard) (w : World)
      → name ≢ ""
      → Spaceless name
      → sv.cat_shards w.history ≡ ok (s ∷ shards)
      → All (MovesFrom name) (s ∷ shards)
      → ((has_shards_on_node sv name w).1 ≡ ok true)
        × ((check_pod_safe_to_delete sv name w).1 ≡ ok true)
  unfolding has_shards_on_node check_pod_safe_to_delete
  check_pod_safe_to_delete-moving s shards w ne l e h =
      let named = ap extract_node_name h.0.1 ∙ (extract_node_name-moving_from name h.0.0 ne l).1 in
      (
        rw e (ap ok ((has_shards_on_node_iff (s ∷ shards) name).1 (s, inl refl, named))),
        rw e (
            ap (λ p. (continue p (λ c. pure (nat_eq c.1 c.0))).1)
              (count_on_node_elsewhere 0 0 (s ∷ shards) (log w (read "CatShards")) h)),
      )
