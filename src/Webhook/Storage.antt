-- ===== src/Webhook/Storage.antt =====
-- What an update that is admitted leaves as it is.
use opensearch_k8s_operator.Prelude.{
  ◌≡◌, refl, sym, ap, ◌∙◌, Bool, true, false, inl, inr, Option, none, some, List, [], ◌∷◌, ◌==◌, In,
  eq_iff, Bool-cases, Option-cases, if◌then◌else◌,
}
use opensearch_k8s_operator.Api.{Error, NodePool, Cluster}
use opensearch_k8s_operator.Helpers.Security.{Versions}
use opensearch_k8s_operator.Webhook.{
  old_node_pool, class_of, storage_from, else_check, validate_node_pool_component_uniqueness,
  validate_storage_class_changes, validate_tls_config, validate_update,
}

some_inj : {A : Type 0} {a b : A} → ◌≡◌ {A = Option A} (some a) (some b) → a ≡ b
some_inj e = cc

storage_from-keeps :
    (old nps : List NodePool) (np o : NodePool)
    → storage_from old nps ≡ none
    → In np nps
    → old_node_pool np.component old ≡ some o
    → class_of o ≡ class_of np
unfolding storage_from
storage_from-keeps old [] np o e i p = absurd i
storage_from-keeps old (m ∷ nps) np o e i p = elim (Option-cases (old_node_pool m.component old)) [
  | inl q ↦ elim i [
    | inl s ↦ absurd (let x = sym q ∙ ap (λ n. old_node_pool n.component old) s ∙ p in cc)
    | inr j ↦ storage_from-keeps old nps np o (rw (q, storage_from) at e) j p
  ]
  | inr (u, q) ↦ elim (Bool-cases (class_of u == class_of m)) [
    | inl t ↦ elim i [
      | inl s ↦
          let x = sym q ∙ ap (λ n. old_node_pool n.component old) s ∙ p in
          ap class_of (sym (some_inj x)) ∙ (eq_iff (class_of u) (class_of m)).0 t ∙ ap class_of s
      | inr j ↦ storage_from-keeps old nps np o (rw (q, t, storage_from) at e) j p
    ]
    | inr t ↦ absurd (let x = rw (q, t, storage_from) at e in cc)
  ]
]

otherwise : (b : Bool) (o : Option Error) → b ≡ false → (if b then none else o) ≡ none → o ≡ none
otherwise true o t e = absurd (cc)
otherwise false o t e = e

none_first : (o p : Option Error) → else_check o p ≡ none → (o ≡ none) × (p ≡ none)
none_first none p e = (refl, e)
none_first (some x) p e = absurd (cc)

-- While a cluster is not being deleted, an admitted update leaves every node pool that the old
-- cluster has under the same name, the last one if there are more, its storage class.
pub validate_update-keeps :
    (v : Versions) (old_cluster new_cluster : Cluster) (np o : NodePool)
    → new_cluster.terminating ≡ false
    → validate_update v old_cluster new_cluster ≡ none
    → In np new_cluster.node_pools
    → old_node_pool np.component old_cluster.node_pools ≡ some o
    → class_of o ≡ class_of np
unfolding validate_update validate_storage_class_changes
validate_update-keeps v old_cluster new_cluster np o t e i p =
    let checks : else_check (validate_node_pool_component_uniqueness new_cluster) (
          else_check (validate_storage_class_changes old_cluster new_cluster)
            (validate_tls_config v new_cluster))
        ≡ none =
      otherwise new_cluster.terminating _ t e in
    storage_from-keeps old_cluster.node_pools new_cluster.node_pools np o
      (none_first _ _ (none_first _ _ checks).1).0 i p
