-- ===== src/Util/Stale.antt =====
-- Which names of pods a StatefulSet owns.
use opensearch_k8s_operator.Prelude.{
  ℕ, zero, suc, ◌+◌, ◌<◌, ◌≤◌, ◌≡◌, ◌≢◌, ◌↔◌, ◌∙◌, refl, ap, inl, inr, true, false, String, ◌==◌,
  eq_iff, Bool-cases, arith,
}
use opensearch_k8s_operator.Prelude.Int.{pos}
use opensearch_k8s_operator.Api.{StatefulSet}
use opensearch_k8s_operator.Helpers.Pods.{replicas_or_one, rounds, replica_host_name}
use opensearch_k8s_operator.Util.{owns_from, owns}

after : (i k : ℕ) → i ≤ k → i ≢ k → i + 1 ≤ k
after i k a ne = omega (arith, a, ne)

differs :
    (sts : StatefulSet) (name : String) (i k : ℕ)
    → (replica_host_name sts (pos i) == name) ≡ false
    → replica_host_name sts (pos k) ≡ name
    → i ≢ k
differs sts name i k e f q =
    let h =
      (eq_iff (replica_host_name sts (pos i)) name).1
        (ap (λ j. replica_host_name sts (pos j)) q ∙ f) in
    cc

owns_from_iff :
    (n i : ℕ) (sts : StatefulSet) (name : String)
    → (owns_from n i sts name ≡ true)
      ↔ ((k : ℕ) × (i ≤ k) × (k < i + n) × (replica_host_name sts (pos k) ≡ name))
unfolding owns_from
owns_from_iff zero i sts name = ((λ e. cc), (λ (k, a, b, e). absurd (omega (arith, a, b))))
owns_from_iff (suc n) i sts name =
    let (there, back) = owns_from_iff n (i + 1) sts name in
    elim (Bool-cases (replica_host_name sts (pos i) == name)) [
      | inl e ↦ rw e (
        (λ _. (i, omega arith, omega arith, (eq_iff (replica_host_name sts (pos i)) name).0 e)),
        (λ _. refl),
      )
      | inr e ↦ rw e (
        (λ h. let (k, a, b, f) = there h in (k, omega (arith, a), omega (arith, b), f)),
        (λ (k, a, b, f). back (k, after i k a (differs sts name i k e f), omega (arith, b), f)),
      )
    ]

-- A StatefulSet owns exactly the names of its ordinals, from zero to one less than its replicas.
owns_iff :
    (sts : StatefulSet) (name : String)
    → (owns sts name ≡ true)
      ↔ ((k : ℕ) × (k < rounds (replicas_or_one sts)) × (replica_host_name sts (pos k) ≡ name))
unfolding owns
owns_iff sts name =
    let (there, back) = owns_from_iff (rounds (replicas_or_one sts)) 0 sts name in
    (
      (λ h. let (k, a, b, e) = there h in (k, omega (arith, b), e)),
      (λ (k, b, e). back (k, omega arith, omega (arith, b), e)),
    )
