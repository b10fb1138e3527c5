-- ===== src/Upgrade/Pick/Sorting.antt =====
-- The three lists that the pools are sorted into.
use mathlib.Core.Path.{subst}
use opensearch_k8s_operator.Prelude.{
  ◌≡◌, refl, sym, ◌⊎◌, inl, inr, true, false, List, [], ◌∷◌, Bool-cases, In, All,
}
use opensearch_k8s_operator.Api.{NodePool}
use opensearch_k8s_operator.Helpers.Roles.{has_data_role, has_manager_role}
use opensearch_k8s_operator.Upgrade.Pick.{Sorted, sort_pools}

-- The sorting puts each pool into one of the three lists.
sort_both :
    (np : NodePool) (nps : List NodePool)
    → has_data_role np ≡ true
    → has_manager_role np ≡ true
    → sort_pools (np ∷ nps) ≡ (
        let s = sort_pools nps in record s { data_and_master_nodes = np ∷ s.data_and_master_nodes })
unfolding sort_pools
sort_both np nps e f = rw (e, f)

sort_data :
    (np : NodePool) (nps : List NodePool)
    → has_data_role np ≡ true
    → has_manager_role np ≡ false
    → sort_pools (np ∷ nps)
      ≡ (let s = sort_pools nps in record s { data_nodes = np ∷ s.data_nodes })
unfolding sort_pools
sort_data np nps e f = rw (e, f)

sort_other :
    (np : NodePool) (nps : List NodePool)
    → has_data_role np ≡ false
    → sort_pools (np ∷ nps)
      ≡ (let s = sort_pools nps in record s { other_nodes = np ∷ s.other_nodes })
unfolding sort_pools
sort_other np nps e = rw e

sort_none : sort_pools [] ≡ record { data_nodes = []; data_and_master_nodes = []; other_nodes = [] }
unfolding sort_pools
sort_none = refl

abbrev pub Parts : (NodePool → Type 0) → Sorted → Type 0
Parts Q s = All Q s.data_nodes × All Q s.data_and_master_nodes × All Q s.other_nodes

-- What is true of the three lists is true of all pools.
pub sort_pools-All :
    (Q : NodePool → Type 0) (pools : List NodePool) → Parts Q (sort_pools pools) → All Q pools
sort_pools-All Q [] h = tt
sort_pools-All Q (np ∷ nps) h = elim (Bool-cases (has_data_role np)) [
  | inl e ↦ elim (Bool-cases (has_manager_role np)) [
    | inl f ↦
        let (a, b, c) = subst (Parts Q) (sort_both np nps e f) h in
        (b.0, sort_pools-All Q nps (a, b.1, c))
    | inr f ↦
        let (a, b, c) = subst (Parts Q) (sort_data np nps e f) h in
        (a.0, sort_pools-All Q nps (a.1, b, c))
  ]
  | inr e ↦
      let (a, b, c) = subst (Parts Q) (sort_other np nps e) h in
      (c.0, sort_pools-All Q nps (a, b, c.1))
]

-- A pool of one of the three lists is one of the pools.
abbrev pub Among : NodePool → Sorted → Type 0
Among p s = In p s.data_nodes ⊎ (In p s.data_and_master_nodes ⊎ In p s.other_nodes)

pub sort_pools-In : (p : NodePool) (pools : List NodePool) → Among p (sort_pools pools) → In p pools
sort_pools-In p [] h = elim (subst (Among p) sort_none h) [
  | inl i ↦ i
  | inr j ↦ elim j [ inl i ↦ i | inr i ↦ i ]
]
sort_pools-In p (np ∷ nps) h = elim (Bool-cases (has_data_role np)) [
  | inl e ↦ elim (Bool-cases (has_manager_role np)) [
    | inl f ↦ elim (subst (Among p) (sort_both np nps e f) h) [
      | inl i ↦ inr (sort_pools-In p nps (inl i))
      | inr j ↦ elim j [
        | inl i ↦ elim i [ inl q ↦ inl q | inr k ↦ inr (sort_pools-In p nps (inr (inl k))) ]
        | inr i ↦ inr (sort_pools-In p nps (inr (inr i)))
      ]
    ]
    | inr f ↦ elim (subst (Among p) (sort_data np nps e f) h) [
      | inl i ↦ elim i [ inl q ↦ inl q | inr k ↦ inr (sort_pools-In p nps (inl k)) ]
      | inr j ↦ inr (sort_pools-In p nps (inr j))
    ]
  ]
  | inr e ↦ elim (subst (Among p) (sort_other np nps e) h) [
    | inl i ↦ inr (sort_pools-In p nps (inl i))
    | inr j ↦ elim j [
      | inl i ↦ inr (sort_pools-In p nps (inr (inl i)))
      | inr i ↦ elim i [ inl q ↦ inl q | inr k ↦ inr (sort_pools-In p nps (inr (inr k))) ]
    ]
  ]
]

-- Which roles the pools of the three lists have.
abbrev pub Kinds : Sorted → Type 0
Kinds s =
    All (λ np. has_data_role np ≡ true) s.data_nodes
    × All (λ np. has_data_role np ≡ true) s.data_and_master_nodes
    × All (λ np. has_data_role np ≡ false) s.other_nodes

pub sort_pools-Kinds : (pools : List NodePool) → Kinds (sort_pools pools)
sort_pools-Kinds [] = unfold sort_pools in (tt, tt, tt)
sort_pools-Kinds (np ∷ nps) =
    let (a, b, c) = sort_pools-Kinds nps in
    elim (Bool-cases (has_data_role np)) [
      | inl e ↦ elim (Bool-cases (has_manager_role np)) [
        | inl f ↦ subst Kinds (sym (sort_both np nps e f)) (a, (e, b), c)
        | inr f ↦ subst Kinds (sym (sort_data np nps e f)) ((e, a), b, c)
      ]
      | inr e ↦ subst Kinds (sym (sort_other np nps e)) (a, b, (e, c))
    ]
