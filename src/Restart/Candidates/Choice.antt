-- ===== src/Restart/Candidates/Choice.antt =====
-- The order of the candidates, and what the test of the quorum guarantees.
use Prim.Native.Nat.{◌*◌}
use mathlib.Core.Bool.{false≢true}
use mathlib.Core.List.{Perm}
use mathlib.Core.List.Perm
use opensearch_k8s_operator.Prelude.{
  ℕ, ◌+◌, ◌-◌, ◌/◌, ◌<◌, ◌≡◌, refl, sym, true, false, not, ◌↔◌, inl, inr, List, [], ◌∷◌, arith, ltb,
  lt→ltb, Bool-cases, All,
}
use opensearch_k8s_operator.Prelude.Int.{pos}
use opensearch_k8s_operator.Restart.Candidates.{
  Candidate, before, insert_candidate, sort_candidates, first_non_master, quorum_unsafe,
}

-- Once a master stands in the list, only masters follow.
abbrev MastersLast : List Candidate → Type 0
MastersLast [] = Unit {0}
MastersLast (c ∷ cs) = (c.is_master ≡ true → All (λ d. d.is_master ≡ true) cs) × MastersLast cs

before-is_master : (a b : Candidate) → before a b ≡ true → a.is_master ≡ true → b.is_master ≡ true
unfolding before
before-is_master a b h m = elim (Bool-cases b.is_master) [
  | inl e ↦ e
  | inr e ↦ absurd (false≢true (rw (m, e) at h))
]

not-before-is_master :
    (a b : Candidate) → before a b ≡ false → b.is_master ≡ true → a.is_master ≡ true
unfolding before
not-before-is_master a b h m = elim (Bool-cases a.is_master) [
  | inl e ↦ e
  | inr e ↦ absurd (false≢true (sym (rw (m, e) at h)))
]

insert-All :
    (c : Candidate) (cs : List Candidate)
    → c.is_master ≡ true
    → All (λ d. d.is_master ≡ true) cs
    → All (λ d. d.is_master ≡ true) (insert_candidate c cs)
unfolding insert_candidate
insert-All c [] m h = (m, tt)
insert-All c (d ∷ ds) m h = elim (Bool-cases (before d c)) [
  | inl e ↦ rw e (h.0, insert-All c ds m h.1)
  | inr e ↦ rw e (m, (h.0, h.1))
]

insert-MastersLast :
    (c : Candidate) (cs : List Candidate) → MastersLast cs → MastersLast (insert_candidate c cs)
unfolding insert_candidate
insert-MastersLast c [] h = ((λ _. tt), tt)
insert-MastersLast c (d ∷ ds) h = elim (Bool-cases (before d c)) [
  | inl e ↦
      rw e ((λ m. insert-All c ds (before-is_master d c e m) (h.0 m)), insert-MastersLast c ds h.1)
  | inr e ↦ rw e ((λ m. let n = not-before-is_master d c e m in (n, h.0 n)), h)
]

sort-MastersLast : (cs : List Candidate) → MastersLast (sort_candidates cs)
unfolding sort_candidates
sort-MastersLast [] = tt
sort-MastersLast (c ∷ cs) = insert-MastersLast c (sort_candidates cs) (sort-MastersLast cs)

insert-perm : (c : Candidate) (cs : List Candidate) → Perm (insert_candidate c cs) (c ∷ cs)
unfolding insert_candidate
insert-perm c [] = Perm.refl (c ∷ [])
insert-perm c (d ∷ ds) = elim (Bool-cases (before d c)) [
  | inl e ↦ rw e (Perm.trans (Perm.cons d (insert-perm c ds)) (Perm.swap c d ds))
  | inr e ↦ rw e (Perm.refl (c ∷ d ∷ ds))
]

sort-perm : (cs : List Candidate) → Perm (sort_candidates cs) cs
unfolding sort_candidates
sort-perm [] = Perm.refl []
sort-perm (c ∷ cs) = Perm.trans (insert-perm c (sort_candidates cs)) (Perm.cons c (sort-perm cs))

first_non_master-All :
    (next : Candidate) (cs : List Candidate)
    → next.is_master ≡ true
    → All (λ d. d.is_master ≡ true) cs
    → first_non_master next cs ≡ next
unfolding first_non_master
first_non_master-All next [] m h = refl
first_non_master-All next (c ∷ cs) m h = rw h.0 (first_non_master-All next cs m h.1)

-- If a master comes first among the sorted candidates then these are the candidates in another
-- order, all of them are masters, and the search for a candidate that is none returns the first one
-- again.
pub sort_candidates-masters :
    (cs : List Candidate) (next : Candidate) (rest : List Candidate)
    → sort_candidates cs ≡ next ∷ rest
    → next.is_master ≡ true
    → Perm (next ∷ rest) cs
      × All (λ d. d.is_master ≡ true) (next ∷ rest)
      × (first_non_master next (next ∷ rest) ≡ next)
sort_candidates-masters cs next rest e m =
    let last : MastersLast (next ∷ rest) = rw e at (sort-MastersLast cs) in
    let masters : All (λ d. d.is_master ≡ true) (next ∷ rest) = (m, last.0 m) in
    (rw e at (sort-perm cs), masters, first_non_master-All next (next ∷ rest) m masters)

quorum_unsafe_lem :
    (t r : ℕ) → t < 2147483647 → quorum_unsafe (pos t) (pos r) ≡ not (ltb ((t + 1) / 2) r)
unfolding quorum_unsafe
quorum_unsafe_lem t r h = rw (lt→ltb (t + 1) 2147483648 (omega arith))

-- With an odd number of masters the test lets a ready master go exactly if a strict majority of the
-- masters is ready after that. With one master it never does.
pub quorum_unsafe_odd :
    (k r : ℕ)
    → 2 * k + 1 < 2147483647
    → (quorum_unsafe (pos (2 * k + 1)) (pos r) ≡ false) ↔ (2 * k + 1 < 2 * (r - 1))
quorum_unsafe_odd k r h = (
  (λ e. ground (arith, quorum_unsafe_lem (2 * k + 1) r h)),
  (λ e. ground (arith, quorum_unsafe_lem (2 * k + 1) r h)),
)

-- With an even number of masters, of which one more than a half is ready, the test lets a ready
-- master go, and no strict majority is ready after that.
pub quorum_unsafe_even :
    (k : ℕ)
    → 2 * k < 2147483647
    → (quorum_unsafe (pos (2 * k)) (pos (k + 1)) ≡ false) × ¬ (2 * k < 2 * (k + 1 - 1))
quorum_unsafe_even k h = (ground (arith, quorum_unsafe_lem (2 * k) (k + 1) h), (λ e. omega arith))
