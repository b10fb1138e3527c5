-- ===== src/Gateway/Exclusion/Names.antt =====
-- What appending and removing a name does to the set of excluded names.
use opensearch_k8s_operator.Prelude.{
  ◌≡◌, refl, sym, ◌≢◌, ◌∙◌, ap, ◌↔◌, ◌⊎◌, inl, inr, true, false, not, ◌&&◌, Option, none, some,
  List, [], ◌∷◌, ◌++◌, String, ◌==◌, eq_iff, arith, if◌then◌else◌, Bool-cases, In, In-append_left,
  In-append_right, In-append, All, All-append,
}
use opensearch_k8s_operator.Text.{split, join, trim_space}
use opensearch_k8s_operator.Text.Split.{Lacks, split-join, join-split, split-Lacks}
use opensearch_k8s_operator.Text.Trim.{trim_space_idem, trim_space-Lacks}
use opensearch_k8s_operator.Helpers.Roles.{contains_string}
use opensearch_k8s_operator.Gateway.Exclusion.{
  append_name, remove_name, trimmed_names, other_names, excluded_names,
}

-- A name that a pod can have: not empty, with no comma and no space at its ends.
pub record IsName (n : String) : Type 0 where
  pub not_empty : n ≢ ""
  pub no_comma : Lacks 44 n
  pub trimmed : trim_space n ≡ n

-- The names without one of them.
unfoldable pub without : String → List String → List String
without n [] = []
without n (m ∷ ms) = let rest = without n ms in if m == n then rest else m ∷ rest

contains-In : (n : String) (parts : List String) → contains_string parts n ≡ true → In n parts
unfolding contains_string
contains-In n [] h = cc
contains-In n (p ∷ ps) h = elim (Bool-cases (p == n)) [
  | inl e ↦ inl ((eq_iff p n).0 e)
  | inr e ↦ inr (contains-In n ps (rw e at h))
]

trimmed_names-append :
    (ps qs : List String) → trimmed_names (ps ++ qs) ≡ trimmed_names ps ++ trimmed_names qs
unfolding trimmed_names
trimmed_names-append [] qs = refl
trimmed_names-append (p ∷ ps) qs = elim (Bool-cases (trim_space p == "")) [
  | inl e ↦ rw e (trimmed_names-append ps qs)
  | inr e ↦ rw e (ap (λ r. trim_space p ∷ r) (trimmed_names-append ps qs))
]

trimmed_names_single : (n : String) → IsName n → trimmed_names (n ∷ []) ≡ n ∷ []
unfolding trimmed_names
trimmed_names_single n h = ground (arith, h.trimmed, h.not_empty, eq_iff (trim_space n) "")

trimmed_names_keep :
    (p : String) (ps : List String)
    → trim_space p ≢ ""
    → trimmed_names (p ∷ ps) ≡ trim_space p ∷ trimmed_names ps
unfolding trimmed_names
trimmed_names_keep p ps h = ground (arith, eq_iff (trim_space p) "")

trimmed_names_drop :
    (p : String) (ps : List String) → trim_space p ≡ "" → trimmed_names (p ∷ ps) ≡ trimmed_names ps
unfolding trimmed_names
trimmed_names_drop p ps h = ground (arith, eq_iff (trim_space p) "")

In-trimmed_names : (n : String) (ps : List String) → IsName n → In n ps → In n (trimmed_names ps)
In-trimmed_names n [] h i = absurd i
In-trimmed_names n (p ∷ ps) h (inl e) =
    let same : trim_space p ≡ n = ap trim_space e ∙ h.trimmed in
    rw (trimmed_names_keep p ps (λ q. h.not_empty (sym same ∙ q))) (inl same)
In-trimmed_names n (p ∷ ps) h (inr i) = elim (Bool-cases (trim_space p == "")) [
  | inl e ↦
      rw (trimmed_names_drop p ps ((eq_iff (trim_space p) "").0 e)) (In-trimmed_names n ps h i)
  | inr e ↦
      rw (trimmed_names_keep p ps (ground (arith, eq_iff (trim_space p) "")))
        (inr (In-trimmed_names n ps h i))
]

excluded_names-join :
    (ps : List String)
    → ps ≢ []
    → All (Lacks 44) ps
    → excluded_names (some (join "," ps)) ≡ trimmed_names ps
unfolding excluded_names
excluded_names-join ps h l = ap trimmed_names (split-join ps h l)

append_present :
    (val n : String) → contains_string (split 44 val) n ≡ true → append_name (some val) n ≡ val
unfolding append_name
append_present val n h = rw h (join-split val)

append_absent :
    (val n : String)
    → contains_string (split 44 val) n ≡ false
    → append_name (some val) n ≡ join "," (split 44 val ++ (n ∷ []))
unfolding append_name
append_absent val n h = rw h

concat-ne-nil : (ps : List String) (n : String) → (ps ++ (n ∷ [])) ≢ []
concat-ne-nil [] n = cc
concat-ne-nil (p ∷ ps) n = cc

excluded_names_absent :
    (val n : String)
    → IsName n
    → contains_string (split 44 val) n ≡ false
    → excluded_names (some (append_name (some val) n)) ≡ excluded_names (some val) ++ (n ∷ [])
excluded_names_absent val n h e =
    ap (λ v. excluded_names (some v)) (append_absent val n e)
    ∙ excluded_names-join (split 44 val ++ (n ∷ [])) (concat-ne-nil (split 44 val) n)
        (All-append (Lacks 44) (split 44 val) (n ∷ []) (split-Lacks 44 val) (h.no_comma, tt))
    ∙ trimmed_names-append (split 44 val) (n ∷ [])
    ∙ ap (λ r. trimmed_names (split 44 val) ++ r) (trimmed_names_single n h)
    ∙ (unfold excluded_names in refl)

excluded_names_first : (n : String) → IsName n → excluded_names (some (append_name none n)) ≡ n ∷ []
unfolding append_name join
excluded_names_first n h =
    excluded_names-join (n ∷ []) (cc) (h.no_comma, tt) ∙ trimmed_names_single n h

present :
    (val n : String)
    → IsName n
    → contains_string (split 44 val) n ≡ true
    → In n (excluded_names (some val))
unfolding excluded_names
present val n h e = In-trimmed_names n (split 44 val) h (contains-In n (split 44 val) e)

-- Appending a name to the list of exclusions, whatever the list was: the names read afterwards are
-- the name and exactly those read before.
pub excluded_names-append_name :
    (v : Option String) (n m : String)
    → IsName n
    → In m (excluded_names (some (append_name v n))) ↔ ((m ≡ n) ⊎ In m (excluded_names v))
excluded_names-append_name none n m h = rw (excluded_names_first n h) (
  (λ i. elim i [ inl e ↦ inl (sym e) | inr f ↦ absurd f ]),
  (λ d. elim d [ inl e ↦ inl (sym e) | inr i ↦ absurd (unfold excluded_names in i) ]),
)
excluded_names-append_name (some val) n m h = elim (Bool-cases (contains_string (split 44 val) n)) [
  | inl e ↦
      rw (append_present val n e)
        ((λ i. inr i), (λ d. elim d [ inl q ↦ rw q (present val n h e) | inr i ↦ i ]))
  | inr e ↦ rw (excluded_names_absent val n h e) (
    (λ i. elim (In-append m (excluded_names (some val)) (n ∷ []) i) [
      | inl l ↦ inr l
      | inr r ↦ elim r [ inl q ↦ inl (sym q) | inr f ↦ absurd f ]
    ]),
    (λ d. elim d [
      | inl q ↦ In-append_right m (excluded_names (some val)) (n ∷ []) (inl (sym q))
      | inr i ↦ In-append_left m (excluded_names (some val)) (n ∷ []) i
    ]),
  )
]

-- A part as the readers leave it.
abbrev IsTrimmed : String → Type 0
IsTrimmed p = (trim_space p ≡ p) × (p ≢ "") × Lacks 44 p

other_names-IsTrimmed :
    (n : String) (ps : List String) → All (Lacks 44) ps → All IsTrimmed (other_names n ps)
unfolding other_names
other_names-IsTrimmed n [] l = tt
other_names-IsTrimmed n (p ∷ ps) l =
    elim (Bool-cases (not (trim_space p == "") && not (trim_space p == n))) [
      | inl e ↦ rw e (
        (trim_space_idem p, ground (arith, eq_iff (trim_space p) ""), trim_space-Lacks 44 p l.0),
        other_names-IsTrimmed n ps l.1,
      )
      | inr e ↦ rw e (other_names-IsTrimmed n ps l.1)
    ]

IsTrimmed-Lacks : (ps : List String) → All IsTrimmed ps → All (Lacks 44) ps
IsTrimmed-Lacks [] h = tt
IsTrimmed-Lacks (p ∷ ps) h = (h.0.2, IsTrimmed-Lacks ps h.1)

trimmed_names_of_IsTrimmed : (ps : List String) → All IsTrimmed ps → trimmed_names ps ≡ ps
trimmed_names_of_IsTrimmed [] h = unfold trimmed_names in refl
trimmed_names_of_IsTrimmed (p ∷ ps) h =
    trimmed_names_keep p ps (λ q. h.0.1 (sym h.0.0 ∙ q))
    ∙ ap (λ r. r ∷ trimmed_names ps) h.0.0
    ∙ ap (λ r. p ∷ r) (trimmed_names_of_IsTrimmed ps h.1)

read_back : (ps : List String) → All IsTrimmed ps → excluded_names (some (join "," ps)) ≡ ps
read_back [] h = unfold excluded_names join split trimmed_names trim_space in refl
read_back (p ∷ ps) h =
    excluded_names-join (p ∷ ps) (cc) (IsTrimmed-Lacks (p ∷ ps) h)
    ∙ trimmed_names_of_IsTrimmed (p ∷ ps) h

other_names-without :
    (n : String) (ps : List String) → other_names n ps ≡ without n (trimmed_names ps)
unfolding other_names trimmed_names without
other_names-without n [] = refl
other_names-without n (p ∷ ps) = elim (Bool-cases (trim_space p == "")) [
  | inl e ↦ rw e (other_names-without n ps)
  | inr e ↦ rw e (elim (Bool-cases (trim_space p == n)) [
    | inl f ↦ rw f (other_names-without n ps)
    | inr f ↦ rw f (ap (λ r. trim_space p ∷ r) (other_names-without n ps))
  ])
]

-- Removing a name from the list of exclusions, whatever the list was: the names read afterwards are
-- those read before, in their order, without that name.
pub excluded_names-remove_name :
    (val n : String)
    → excluded_names (some (remove_name val n)) ≡ without n (excluded_names (some val))
unfolding remove_name excluded_names
excluded_names-remove_name val n =
    read_back (other_names n (split 44 val))
      (other_names-IsTrimmed n (split 44 val) (split-Lacks 44 val))
    ∙ other_names-without n (split 44 val)
