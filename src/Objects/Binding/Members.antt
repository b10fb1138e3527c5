-- ===== src/Objects/Binding/Members.antt =====
-- Who is in a mapping that the reconciler of role bindings writes.
use opensearch_k8s_operator.Prelude.{
  ◌↔◌, ◌⊎◌, inl, inr, List, ◌++◌, String, Bool-cases, In, In-append, In-append_left,
  In-append_right,
}
use opensearch_k8s_operator.Helpers.Roles.{contains_string, diff_slice}
use opensearch_k8s_operator.Helpers.Slices.{In-diff_slice, contains_string_iff}

pub In-dec : (n : String) (xs : List String) → In n xs ⊎ ¬ In n xs
In-dec n xs = elim (Bool-cases (contains_string xs n)) [
  | inl e ↦ inl ((contains_string_iff n xs).0 e)
  | inr e ↦ inr (λ i. let x = (contains_string_iff n xs).1 i in cc)
]

-- One list of a mapping after the change: the wanted names, and those that were there without having
-- been put there by an earlier run.
pub In-renewed :
    (n : String) (wanted provisioned old : List String)
    → In n (diff_slice old (diff_slice provisioned wanted) ++ diff_slice wanted old)
      ↔ (In n wanted ⊎ (In n old × ¬ In n provisioned))
In-renewed n wanted provisioned old = (forth, back)
  where
    forth :
        In n (diff_slice old (diff_slice provisioned wanted) ++ diff_slice wanted old)
        → In n wanted ⊎ (In n old × ¬ In n provisioned)
    forth i =
        elim (In-append n (diff_slice old (diff_slice provisioned wanted)) (diff_slice wanted old)
          i) [
            | inl j ↦
                let (a, b) = (In-diff_slice n old (diff_slice provisioned wanted)).0 j in
                elim (In-dec n wanted) [
                  | inl w ↦ inl w
                  | inr w ↦ inr (a, λ p. b ((In-diff_slice n provisioned wanted).1 (p, w)))
                ]
            | inr j ↦ inl ((In-diff_slice n wanted old).0 j).0
          ]

    back :
        In n wanted ⊎ (In n old × ¬ In n provisioned)
        → In n (diff_slice old (diff_slice provisioned wanted) ++ diff_slice wanted old)
    back (inl w) = elim (In-dec n old) [
      | inl o ↦ In-append_left n _ _ (
          (In-diff_slice n old (diff_slice provisioned wanted)).1
            (o, λ g. ((In-diff_slice n provisioned wanted).0 g).1 w))
      | inr o ↦ In-append_right n _ _ ((In-diff_slice n wanted old).1 (w, o))
    ]
    back (inr (o, p)) = In-append_left n _ _ (
        (In-diff_slice n old (diff_slice provisioned wanted)).1
          (o, λ g. p ((In-diff_slice n provisioned wanted).0 g).0))
