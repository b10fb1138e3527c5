-- ===== src/Helpers/Slices.antt =====
-- What ContainsString and DiffSlice (pkg/helpers/helpers.go) say about membership.
use opensearch_k8s_operator.Prelude.{
  ◌≡◌, refl, ap, ◌≤◌, ◌↔◌, inl, inr, true, false, List, [], ◌∷◌, String, ◌==◌, eq_iff, arith,
  Bool-cases, In, length,
}
use opensearch_k8s_operator.Helpers.Roles.{contains_string, diff_slice}

pub contains_string_iff :
    (n : String) (parts : List String) → (contains_string parts n ≡ true) ↔ In n parts
unfolding contains_string
contains_string_iff n [] = (λ h. cc, λ i. absurd i)
contains_string_iff n (p ∷ ps) = elim (Bool-cases (p == n)) [
  | inl e ↦ (λ h. inl ((eq_iff p n).0 e), λ i. rw e refl)
  | inr e ↦
      let ih = contains_string_iff n ps in
      (
        λ h. inr (ih.0 (rw e at h)),
        λ i. rw e (elim i [ inl q ↦ absurd (let x = (eq_iff p n).1 q in cc) | inr j ↦ ih.1 j ]),
      )
]

pub lacks : (n : String) (parts : List String) → contains_string parts n ≡ false → ¬ In n parts
lacks n parts h i = let x = (contains_string_iff n parts).1 i in cc

-- The difference has exactly the members of the left list that the right one lacks.
pub In-diff_slice :
    (n : String) (left right : List String)
    → In n (diff_slice left right) ↔ (In n left × ¬ In n right)
unfolding diff_slice
In-diff_slice n [] right = (λ i. absurd i, λ p. p.0)
In-diff_slice n (s ∷ left) right =
    let ih = In-diff_slice n left right in
    elim (Bool-cases (contains_string right s)) [
      | inl e ↦ rw e (
        λ i. let (a, b) = ih.0 i in (inr a, b),
        λ p. elim p.0 [
          | inl q ↦ absurd (p.1 (rw (← q) ((contains_string_iff s right).0 e)))
          | inr j ↦ ih.1 (j, p.1)
        ],
      )
      | inr e ↦ rw e (
        λ i. elim i [
          | inl q ↦ (inl q, rw (← q) (lacks s right e))
          | inr j ↦ let (a, b) = ih.0 j in (inr a, b)
        ],
        λ p. elim p.0 [ inl q ↦ inl q | inr j ↦ inr (ih.1 (j, p.1)) ],
      )
    ]

pub length-diff_slice : (left right : List String) → length (diff_slice left right) ≤ length left
unfolding diff_slice
length-diff_slice [] right = omega arith
length-diff_slice (s ∷ left) right = elim (Bool-cases (contains_string right s)) [
  | inl e ↦ rw e (omega (arith, length-diff_slice left right))
  | inr e ↦ rw e (omega (arith, length-diff_slice left right))
]

-- A difference of the same length removes nothing.
pub diff_slice-same_length :
    (left right : List String)
    → length (diff_slice left right) ≡ length left
    → diff_slice left right ≡ left
unfolding diff_slice
diff_slice-same_length [] right h = refl
diff_slice-same_length (s ∷ left) right h = elim (Bool-cases (contains_string right s)) [
  | inl e ↦ absurd (let q = rw e at h in omega (arith, length-diff_slice left right, q))
  | inr e ↦
      rw e (
        ap (λ r. s ∷ r) (diff_slice-same_length left right (let q = rw e at h in omega (arith, q))))
]
