-- ===== src/Upgrade/Pick/Order.antt =====
-- Which pool is chosen for the upgrade, and when none is.
use mathlib.Core.Path.{subst}
use opensearch_k8s_operator.Prelude.{
  ◌≡◌, ◌∙◌, refl, sym, ap, ◌⊎◌, inl, inr, true, false, Option, none, some, List, [], ◌∷◌, String,
  Bool-cases, Option-cases, In, All, All-In, All-map,
}
use opensearch_k8s_operator.Api.{ComponentStatus, NodePool}
use opensearch_k8s_operator.Helpers.Roles.{has_data_role}
use opensearch_k8s_operator.Upgrade.Pick.Sorting.{sort_pools-All, sort_pools-In, sort_pools-Kinds}
use opensearch_k8s_operator.Upgrade.Pick.{
  sort_pools, in_progress, untouched, find_in_progress, find_next_pool, pick_in,
  find_next_node_pool_for_upgrade,
}

some_inj : {A : Type 0} {a b : A} → some a ≡ some b → a ≡ b
some_inj e = cc

none-some : {A : Type 0} {a : A} → none ≡ some a → ⊥
none-some e = cc

module _ (components : List ComponentStatus) where
  -- The upgrade has touched the pool, and is not at work on it.
  abbrev pub Touched : NodePool → Type 0
  Touched np = (in_progress components np ≡ false) × (untouched components np ≡ false)

  -- The pool is one that work is for, with the status that says so.
  abbrev pub Chosen : NodePool × String → Type 0
  Chosen (np, status) =
      ((status ≡ "Upgrading") × (in_progress components np ≡ true))
      ⊎ ((status ≡ "Pending") × (untouched components np ≡ true))

  -- What is true of a choice out of some pools.
  abbrev Verdict : List NodePool → Option (NodePool × String) → Type 0
  Verdict pools none = All Touched pools
  Verdict pools (some p) = In p.0 pools × Chosen p

  find_in_progress-none :
      (pools : List NodePool)
      → find_in_progress components pools ≡ none
      → All (λ np. in_progress components np ≡ false) pools
  unfolding find_in_progress
  find_in_progress-none [] h = tt
  find_in_progress-none (np ∷ nps) h = elim (Bool-cases (in_progress components np)) [
    | inl e ↦ absurd (none-some (sym (rw e at h)))
    | inr e ↦ (e, find_in_progress-none nps (rw e at h))
  ]

  find_in_progress-some :
      (pools : List NodePool) (p : NodePool)
      → find_in_progress components pools ≡ some p
      → In p pools × (in_progress components p ≡ true)
  unfolding find_in_progress
  find_in_progress-some [] p h = absurd (none-some h)
  find_in_progress-some (np ∷ nps) p h = elim (Bool-cases (in_progress components np)) [
    | inl e ↦
        let q : np ≡ p = some_inj (rw e at h) in (inl q, ap (in_progress components) (sym q) ∙ e)
    | inr e ↦ let (i, f) = find_in_progress-some nps p (rw e at h) in (inr i, f)
  ]

  find_next_pool-none :
      (pools : List NodePool)
      → find_next_pool components pools ≡ none
      → All (λ np. untouched components np ≡ false) pools
  unfolding find_next_pool
  find_next_pool-none [] h = tt
  find_next_pool-none (np ∷ nps) h = elim (Bool-cases (untouched components np)) [
    | inl e ↦ absurd (none-some (sym (rw e at h)))
    | inr e ↦ (e, find_next_pool-none nps (rw e at h))
  ]

  find_next_pool-some :
      (pools : List NodePool) (p : NodePool)
      → find_next_pool components pools ≡ some p
      → In p pools × (untouched components p ≡ true)
  unfolding find_next_pool
  find_next_pool-some [] p h = absurd (none-some h)
  find_next_pool-some (np ∷ nps) p h = elim (Bool-cases (untouched components np)) [
    | inl e ↦
        let q : np ≡ p = some_inj (rw e at h) in (inl q, ap (untouched components) (sym q) ∙ e)
    | inr e ↦ let (i, f) = find_next_pool-some nps p (rw e at h) in (inr i, f)
  ]

  All-Touched :
      (pools : List NodePool)
      → All (λ np. in_progress components np ≡ false) pools
      → All (λ np. untouched components np ≡ false) pools
      → All Touched pools
  All-Touched [] h k = tt
  All-Touched (np ∷ nps) h k = ((h.0, k.0), All-Touched nps h.1 k.1)

  pick_in_progress :
      (pools : List NodePool) (p : NodePool)
      → find_in_progress components pools ≡ some p
      → pick_in components pools ≡ some (p, "Upgrading")
  unfolding pick_in
  pick_in_progress pools p e = rw (e, pick_in)

  pick_in_next :
      (pools : List NodePool) (p : NodePool)
      → find_in_progress components pools ≡ none
      → find_next_pool components pools ≡ some p
      → pick_in components pools ≡ some (p, "Pending")
  unfolding pick_in
  pick_in_next pools p e f = rw (e, f, pick_in)

  pick_in-none :
      (pools : List NodePool)
      → find_in_progress components pools ≡ none
      → find_next_pool components pools ≡ none
      → pick_in components pools ≡ none
  unfolding pick_in
  pick_in-none pools e f = rw (e, f, pick_in)

  pick_in-Verdict : (pools : List NodePool) → Verdict pools (pick_in components pools)
  pick_in-Verdict pools = elim (Option-cases (find_in_progress components pools)) [
    | inl e ↦ elim (Option-cases (find_next_pool components pools)) [
      | inl f ↦
          rw (pick_in-none pools e f)
            (All-Touched pools (find_in_progress-none pools e) (find_next_pool-none pools f))
      | inr (p, f) ↦
          rw (pick_in_next pools p e f)
            (let (i, u) = find_next_pool-some pools p f in (i, inr (refl, u)))
    ]
    | inr (p, e) ↦
        rw (pick_in_progress pools p e)
          (let (i, u) = find_in_progress-some pools p e in (i, inl (refl, u)))
  ]

  -- What is true of the choice out of all pools: data nodes come first.
  abbrev pub Right : List NodePool → Option (NodePool × String) → Type 0
  Right pools none = All Touched pools
  Right pools (some p) =
      In p.0 pools
      × Chosen p
      × (has_data_role p.0 ≡ false → All (λ np. has_data_role np ≡ true → Touched np) pools)

  abbrev IsNext : NodePool → Type 0
  IsNext np = has_data_role np ≡ true → Touched np

  next_data :
      (pools : List NodePool) (p : NodePool × String)
      → pick_in components (sort_pools pools).data_nodes ≡ some p
      → find_next_node_pool_for_upgrade components pools ≡ some p
  unfolding find_next_node_pool_for_upgrade
  next_data pools p e = rw (e, find_next_node_pool_for_upgrade)

  next_both :
      (pools : List NodePool) (p : NodePool × String)
      → pick_in components (sort_pools pools).data_nodes ≡ none
      → pick_in components (sort_pools pools).data_and_master_nodes ≡ some p
      → find_next_node_pool_for_upgrade components pools ≡ some p
  unfolding find_next_node_pool_for_upgrade
  next_both pools p e f = rw (e, f, find_next_node_pool_for_upgrade)

  next_other :
      (pools : List NodePool) (o : Option (NodePool × String))
      → pick_in components (sort_pools pools).data_nodes ≡ none
      → pick_in components (sort_pools pools).data_and_master_nodes ≡ none
      → pick_in components (sort_pools pools).other_nodes ≡ o
      → find_next_node_pool_for_upgrade components pools ≡ o
  unfolding find_next_node_pool_for_upgrade
  next_other pools o e f g = rw (e, f, g, find_next_node_pool_for_upgrade)

  pick_in-Verdict_of :
      (pools : List NodePool) (o : Option (NodePool × String))
      → pick_in components pools ≡ o
      → Verdict pools o
  pick_in-Verdict_of pools o e = subst (Verdict pools) e (pick_in-Verdict pools)

  -- A pool with the role data needs no more.
  has_data :
      (p : NodePool × String) (list pools : List NodePool)
      → All (λ np. has_data_role np ≡ true) list
      → In p.0 list
      → has_data_role p.0 ≡ false
      → All IsNext pools
  has_data p list pools k i lacks =
      absurd (let has = All-In (λ np. has_data_role np ≡ true) p.0 list k i in cc)

  others :
      (pools : List NodePool) (o : Option (NodePool × String))
      → All Touched (sort_pools pools).data_nodes
      → All Touched (sort_pools pools).data_and_master_nodes
      → Verdict (sort_pools pools).other_nodes o
      → Right pools o
  others pools none a b v = sort_pools-All Touched pools (a, b, v)
  others pools (some p) a b (i, c) =
      let (kd, kb, ko) = sort_pools-Kinds pools in
      (
        sort_pools-In p.0 pools (inr (inr i)),
        c,
        (λ lacks. sort_pools-All IsNext pools (
          All-map Touched IsNext _ (λ np t d. t) a,
          All-map Touched IsNext _ (λ np t d. t) b,
          All-map (λ np. has_data_role np ≡ false) IsNext _ (λ np k d. absurd (cc)) ko,
        )),
      )

  -- For every list of pools and every list of statuses: if no pool is chosen then the upgrade has
  -- touched all pools and is at work on none. A pool that is chosen is one of the pools, with the
  -- status Upgrading if the upgrade is at work on it, and Pending if no status names it; and if it
  -- has no role data, then the upgrade has touched all pools that have, and is at work on none of
  -- these.
  pub find_next_node_pool_for_upgrade-Right :
      (pools : List NodePool) → Right pools (find_next_node_pool_for_upgrade components pools)
  find_next_node_pool_for_upgrade-Right pools =
      let s = sort_pools pools in
      let (kd, kb, ko) = sort_pools-Kinds pools in
      elim (Option-cases (pick_in components s.data_nodes)) [
        | inr (p, e) ↦ rw (next_data pools p e) (
            let (i, c) = pick_in-Verdict_of s.data_nodes (some p) e in
            (sort_pools-In p.0 pools (inl i), c, has_data p s.data_nodes pools kd i))
        | inl e ↦ elim (Option-cases (pick_in components s.data_and_master_nodes)) [
          | inr (p, f) ↦ rw (next_both pools p e f) (
              let (i, c) = pick_in-Verdict_of s.data_and_master_nodes (some p) f in
              (
                sort_pools-In p.0 pools (inr (inl i)),
                c,
                has_data p s.data_and_master_nodes pools kb i,
              ))
          | inl f ↦ rw (next_other pools (pick_in components s.other_nodes) e f refl) (
              others pools (pick_in components s.other_nodes)
                (pick_in-Verdict_of s.data_nodes none e)
                (pick_in-Verdict_of s.data_and_master_nodes none f) (pick_in-Verdict s.other_nodes))
        ]
      ]
