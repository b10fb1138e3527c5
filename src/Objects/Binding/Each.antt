-- ===== src/Objects/Binding/Each.antt =====
-- A loop whose steps each renew the mapping of their own role.
use mathlib.Core.Path.{subst}
use opensearch_k8s_operator.Prelude.{
  ◌≡◌, ◌≢◌, refl, ◌∙◌, inl, inr, Option, List, [], ◌∷◌, String, ◌==◌, eq_iff, Bool-cases, In,
}
use opensearch_k8s_operator.Api.Objects.{Body, RoleMapping}
use opensearch_k8s_operator.Exec.{World, Result, ok, Exec}
use opensearch_k8s_operator.Objects.Managed.Stored.{Store, stored}
use opensearch_k8s_operator.Objects.Binding.{for_each}
use opensearch_k8s_operator.Objects.Binding.Members.{In-dec}
use opensearch_k8s_operator.Objects.Binding.Stored.{held_mapping}

abbrev pub at : Store → World → String → Option Body
at base w r = stored base w.history "rolesmapping" r

-- The action ends well, relates the mapping of one role by `R`, and leaves those of the others.
abbrev pub Steps :
    {E : Type 0}
    → Store
    → (RoleMapping → RoleMapping → Type 0)
    → String
    → World
    → World × Result E (Unit {0})
    → Type 0
Steps base R r w p =
    (w' : World) × (p ≡ (w', ok tt))
    × R (held_mapping (at base w r)) (held_mapping (at base w' r))
    × ((n : String) → r ≢ n → at base w' n ≡ at base w n)

-- The same for a list of roles.
abbrev pub StepsAll :
    {E : Type 0}
    → Store
    → (RoleMapping → RoleMapping → Type 0)
    → List String
    → World
    → World × Result E (Unit {0})
    → Type 0
StepsAll base R rs w p =
    (w' : World) × (p ≡ (w', ok tt))
    × ((r : String) → In r rs → R (held_mapping (at base w r)) (held_mapping (at base w' r)))
    × ((n : String) → ¬ In n rs → at base w' n ≡ at base w n)

module _ (base : Store) (R : RoleMapping → RoleMapping → Type 0)
    (again : (a b c : RoleMapping) → R a b → R b c → R a c) where
  own :
      (r r' : String) (w w' : World)
      → r ≡ r'
      → R (held_mapping (at base w r)) (held_mapping (at base w' r))
      → R (held_mapping (at base w r')) (held_mapping (at base w' r'))
  own r r' w w' e q =
      subst (λ r'. R (held_mapping (at base w r')) (held_mapping (at base w' r'))) e q

  after_step :
      (r r' : String) (w w1 w2 : World)
      → R (held_mapping (at base w r)) (held_mapping (at base w1 r))
      → ((n : String) → r ≢ n → at base w1 n ≡ at base w n)
      → R (held_mapping (at base w1 r')) (held_mapping (at base w2 r'))
      → R (held_mapping (at base w r')) (held_mapping (at base w2 r'))
  after_step r r' w w1 w2 q f b = elim (Bool-cases (r == r')) [
    | inl e ↦ again _ (held_mapping (at base w1 r')) _ (own r r' w w1 ((eq_iff r r').0 e) q) b
    | inr e ↦ rw (← f r' (λ p. let x = (eq_iff r r').1 p in cc)) b
  ]

  pub for_each-Steps :
      {E : Type 0} (m : String → Exec E (Unit {0}))
      → ((r : String) (w : World) → Steps base R r w (m r w))
      → (rs : List String) (w : World) → StepsAll base R rs w (for_each m rs w)
  unfolding for_each
  for_each-Steps m step [] w = (w, refl, λ r i. absurd i, λ n i. refl)
  for_each-Steps m step (r ∷ rs) w =
      let (w1, p1, q1, f1) = step r w in
      let (w2, p2, b2, k2) = for_each-Steps m step rs w1 in
      (
        w2,
        rw p1 p2,
        λ r' i. elim (In-dec r' rs) [
          | inl j ↦ after_step r r' w w1 w2 q1 f1 (b2 r' j)
          | inr j ↦ elim i [ inl e ↦ rw (k2 r' j) (own r r' w w1 e q1) | inr j' ↦ absurd (j j') ]
        ],
        λ n i. k2 n (λ j. i (inr j)) ∙ f1 n (λ e. i (inl e)),
      )
