-- ===== src/Gateway/Shards/Nodes.antt =====
-- The node that a line of _cat/shards names, for a shard at rest and for one that moves.
use opensearch_k8s_operator.Prelude.{
  ◌≡◌, ◌≢◌, ◌↔◌, ◌∙◌, ap, refl, inl, inr, true, List, [], ◌∷◌, String, ◌<>◌, ◌==◌, eq_iff,
  Bool-cases, In,
}
use opensearch_k8s_operator.Text.{trim_space, fields, is_space}
use opensearch_k8s_operator.Text.Trim.{
  Spaceless, fields-trim_space, fields-append, fields_of_Spaceless,
}
use opensearch_k8s_operator.Api.{Shard}
use opensearch_k8s_operator.Gateway.Shards.{
  extract_node_name, has_shards_on_node_from_response, first_or,
}
use Prim.Native.String.append

extract_node_name_lem :
    (s n : String) (fs : List String) → s ≢ "" → fields s ≡ n ∷ fs → extract_node_name s ≡ n
unfolding extract_node_name
extract_node_name_lem String.[] n fs ne e = absurd (ne refl)
extract_node_name_lem (String.◌∷◌ c s) n fs ne e =
    ap (first_or (trim_space (String.◌∷◌ c s))) (fields-trim_space (String.◌∷◌ c s) ∙ e)

append-ne-nil : (n s : String) → n ≢ "" → (n <> s) ≢ ""
append-ne-nil String.[] s ne = absurd (ne refl)
append-ne-nil (String.◌∷◌ c n) s ne = rw append.cons (cc)

-- The text of a shard that moves from a node: "source -> ip id target".
abbrev pub moving_from : String → String → String
moving_from source target = source <> (" -> " <> target)

-- For every node name without spaces, both the text of a shard at rest on that node and the text of
-- a shard that moves away from it, whatever its target is, give the name of that node.
pub extract_node_name-moving_from :
    (n target : String)
    → n ≢ ""
    → Spaceless n
    → (extract_node_name n ≡ n) × (extract_node_name (moving_from n target) ≡ n)
unfolding is_space
extract_node_name-moving_from n target ne h = (
  extract_node_name_lem n n [] ne (fields_of_Spaceless n ne h),
  extract_node_name_lem (moving_from n target) n (fields ("-> " <> target))
      (append-ne-nil n (" -> " <> target) ne)
      (ap (λ s. fields (n <> s)) (append.cons " " "-> " target)
        ∙ fields-append n " " ("-> " <> target) ne h refl),
)

-- The answer on a node, as a statement on the shards.
pub has_shards_on_node_iff :
    (shards : List Shard) (n : String)
    → (has_shards_on_node_from_response shards n ≡ true)
      ↔ ((s : Shard) × In s shards × (extract_node_name s.node_name ≡ n))
unfolding has_shards_on_node_from_response
has_shards_on_node_iff [] n = ((λ e. cc), (λ (s, i, e). absurd i))
has_shards_on_node_iff (s ∷ shards) n =
    let ih = has_shards_on_node_iff shards n in
    elim (Bool-cases (extract_node_name s.node_name == n)) [
      | inl e ↦
          rw e ((λ _. (s, inl refl, (eq_iff (extract_node_name s.node_name) n).0 e)), (λ _. refl))
      | inr e ↦ rw e (
        (λ h. let (t, i, p) = ih.0 h in (t, inr i, p)),
        (λ (t, i, p). elim i [
          | inl q ↦
              let r =
                (eq_iff (extract_node_name s.node_name) n).1
                  (ap (λ u. extract_node_name u.node_name) q ∙ p) in
              cc
          | inr j ↦ ih.1 (t, j, p)
        ]),
      )
    ]
