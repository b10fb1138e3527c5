-- ===== src/Webhook/Unique.antt =====
-- The names of the node pools of an admitted cluster.
use mathlib.Core.Path.{subst}
use opensearch_k8s_operator.Prelude.{
  ℕ, suc, ◌≡◌, ◌≢◌, refl, sym, ◌↔◌, inl, inr, none, List, [], ◌∷◌, String, ◌==◌, In, eq_iff,
  Bool-cases,
}
use opensearch_k8s_operator.Api.{NodePool, Cluster}
use opensearch_k8s_operator.Helpers.Roles.{contains_string}
use opensearch_k8s_operator.Helpers.Slices.{contains_string_iff, lacks}
use opensearch_k8s_operator.Webhook.{unique_from, validate_node_pool_component_uniqueness}

abbrev pub components : List NodePool → List String
components [] = []
components (np ∷ nps) = np.component ∷ components nps

-- No name is empty, and none comes again.
abbrev pub Distinct : List String → Type 0
Distinct [] = Unit {0}
Distinct (c ∷ cs) = (c ≢ "") × ¬ In c cs × Distinct cs

-- What the loop asks of the names that are left.
abbrev Fresh : List String → List String → Type 0
Fresh seen [] = Unit {0}
Fresh seen (c ∷ cs) = (c ≢ "") × ¬ In c seen × Fresh (c ∷ seen) cs

unique_from_iff :
    (i : ℕ) (seen : List String) (nps : List NodePool)
    → (unique_from i seen nps ≡ none) ↔ Fresh seen (components nps)
unfolding unique_from
unique_from_iff i seen [] = (λ e. tt, λ f. refl)
unique_from_iff i seen (np ∷ nps) = elim (Bool-cases (np.component == "")) [
  | inl e ↦ (
    λ h. absurd (let x = rw e at h in cc),
    λ f. let (ne, l, r) = f in absurd (ne ((eq_iff np.component "").0 e)),
  )
  | inr e ↦ elim (Bool-cases (contains_string seen np.component)) [
    | inl c ↦ (
      λ h. absurd (let x = rw (e, c) at h in cc),
      λ f. let (ne, l, r) = f in absurd (l ((contains_string_iff np.component seen).0 c)),
    )
    | inr c ↦
        let ih = unique_from_iff (suc i) (np.component ∷ seen) nps in
        (
          λ h. (
            λ q. let x = (eq_iff np.component "").1 q in absurd (cc),
            lacks np.component seen c,
            ih.0 (rw (e, c) at h),
          ),
          λ f. let (ne, l, r) = f in rw e (rw c (ih.1 r)),
        )
  ]
]

-- Looking back over the names seen is looking ahead over the names left.
Fresh-Distinct :
    (seen cs : List String) → Fresh seen cs ↔ (Distinct cs × ((c : String) → In c cs → ¬ In c seen))
Fresh-Distinct seen [] = (λ f. (tt, λ c k. absurd k), λ d. tt)
Fresh-Distinct seen (c ∷ cs) =
    let ih = Fresh-Distinct (c ∷ seen) cs in
    (
      λ f.
          let (ne, l, r) = f in
          let (d, k) = ih.0 r in
          (
            (ne, λ i. k c i (inl refl), d),
            λ x i j. elim i [
              | inl q ↦ l (subst (λ y. In y seen) (sym q) j)
              | inr m ↦ k x m (inr j)
            ],
          ),
      λ g.
          let (h, k) = g in
          let (ne, n, d) = h in
          (
            ne,
            k c (inl refl),
            ih.1 (
              d,
              λ x i j. elim j [
                | inl q ↦ n (subst (λ y. In y cs) (sym q) i)
                | inr m ↦ k x (inr i) m
              ],
            ),
          ),
    )

-- The check of the names passes exactly if no node pool has an empty name and no two have the same.
pub validate_node_pool_component_uniqueness_iff :
    (cluster : Cluster)
    → (validate_node_pool_component_uniqueness cluster ≡ none)
      ↔ Distinct (components cluster.node_pools)
unfolding validate_node_pool_component_uniqueness
validate_node_pool_component_uniqueness_iff cluster =
    let u = unique_from_iff 0 [] cluster.node_pools in
    let f = Fresh-Distinct [] (components cluster.node_pools) in
    (λ e. (f.0 (u.0 e)).0, λ d. u.1 (f.1 (d, λ c i k. absurd k)))
