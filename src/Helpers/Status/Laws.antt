-- ===== src/Helpers/Status/Laws.antt =====
-- What the reconcilers find in the list of statuses after they have written to it.
use opensearch_k8s_operator.Prelude.{
  ℕ, ◌+◌, ◌≤◌, ◌≡◌, ◌∙◌, refl, sym, ap, inl, inr, Bool, true, false, ◌&&◌, List, [], ◌∷◌, ◌++◌,
  ◌==◌, eq_iff, eq_refl, if◌then◌else◌, Bool-cases, arith,
}
use opensearch_k8s_operator.Api.{ComponentStatus}
use opensearch_k8s_operator.Helpers.Status.{
  component_status_equal, remove_it, replace, get_by_description_and_component, find_first_partial,
}

-- The status is about the same component and the same description.
unfoldable pub matches : ComponentStatus → ComponentStatus → Bool
matches v item = v.description == item.description && v.component == item.component

abbrev pub find : List ComponentStatus → ComponentStatus → ComponentStatus × Bool
find = find_first_partial get_by_description_and_component

-- How many statuses are about the same.
unfoldable pub count : ComponentStatus → List ComponentStatus → ℕ
count item [] = 0
count item (v ∷ vs) = let rest = count item vs in if matches v item then rest + 1 else rest

find_at :
    (v item : ComponentStatus) (vs : List ComponentStatus)
    → matches v item ≡ true
    → find (v ∷ vs) item ≡ (v, true)
unfolding find_first_partial get_by_description_and_component matches
find_at v item vs e = rw e

find_past :
    (v item : ComponentStatus) (vs : List ComponentStatus)
    → matches v item ≡ false
    → find (v ∷ vs) item ≡ find vs item
unfolding find_first_partial get_by_description_and_component matches
find_past v item vs e = rw e

count_at :
    (v item : ComponentStatus) (vs : List ComponentStatus)
    → matches v item ≡ true
    → count item (v ∷ vs) ≡ count item vs + 1
unfolding count
count_at v item vs e = rw e

count_past :
    (v item : ComponentStatus) (vs : List ComponentStatus)
    → matches v item ≡ false
    → count item (v ∷ vs) ≡ count item vs
unfolding count
count_past v item vs e = rw e

remove_at :
    (v ss : ComponentStatus) (vs : List ComponentStatus)
    → component_status_equal v ss ≡ true
    → remove_it ss (v ∷ vs) ≡ vs
unfolding remove_it
remove_at v ss vs e = rw e

remove_past :
    (v ss : ComponentStatus) (vs : List ComponentStatus)
    → component_status_equal v ss ≡ false
    → remove_it ss (v ∷ vs) ≡ v ∷ remove_it ss vs
unfolding remove_it
remove_past v ss vs e = rw e

component_status_equal_refl : (v : ComponentStatus) → component_status_equal v v ≡ true
unfolding component_status_equal
component_status_equal_refl v = rw (eq_refl v.component, eq_refl v.description, eq_refl v.status)

-- Equal statuses are about the same.
equal-matches :
    (v ss item : ComponentStatus)
    → component_status_equal v ss ≡ true
    → matches v item ≡ matches ss item
unfolding component_status_equal matches
equal-matches v ss item e =
    let c : v.component ≡ ss.component = ground (arith, eq_iff v.component ss.component) in
    let d : v.description ≡ ss.description = ground (arith, eq_iff v.description ss.description) in
    rw (c, d) refl

find-append :
    (item : ComponentStatus) (vs ws : List ComponentStatus)
    → count item vs ≡ 0
    → find (vs ++ ws) item ≡ find ws item
find-append item [] ws h = refl
find-append item (v ∷ vs) ws h = elim (Bool-cases (matches v item)) [
  | inl e ↦ absurd (omega (arith, h, count_at v item vs e))
  | inr e ↦
      find_past v item (vs ++ ws) e ∙ find-append item vs ws (sym (count_past v item vs e) ∙ h)
]

count_le :
    (v item : ComponentStatus) (vs : List ComponentStatus) → count item vs ≤ count item (v ∷ vs)
unfolding count
count_le v item vs = elim (Bool-cases (matches v item)) [
  | inl e ↦ rw e (omega arith)
  | inr e ↦ rw e (omega arith)
]

count_mono :
    (v item : ComponentStatus) (us vs : List ComponentStatus)
    → count item us ≤ count item vs
    → count item (v ∷ us) ≤ count item (v ∷ vs)
unfolding count
count_mono v item us vs h = elim (Bool-cases (matches v item)) [
  | inl e ↦ rw e (omega (arith, h))
  | inr e ↦ rw e h
]

find_nil : (item : ComponentStatus) → (find [] item).1 ≡ false
unfolding find_first_partial
find_nil item = refl

same_status :
    {v old : ComponentStatus} {b : Bool}
    → ◌≡◌ {A = ComponentStatus × Bool} (v, b) (old, true)
    → v ≡ old
same_status e = ap (λ p. p.0) e

-- What is found is about the same.
find-matches :
    (item old : ComponentStatus) (vs : List ComponentStatus)
    → find vs item ≡ (old, true)
    → matches old item ≡ true
find-matches item old [] h = absurd (let f = ap (λ p. p.1) h in let g = find_nil item in cc)
find-matches item old (v ∷ vs) h = elim (Bool-cases (matches v item)) [
  | inl e ↦ ap (λ u. matches u item) (sym (same_status (sym (find_at v item vs e) ∙ h))) ∙ e
  | inr e ↦ find-matches item old vs (sym (find_past v item vs e) ∙ h)
]

unequal :
    (v ss item : ComponentStatus)
    → matches v item ≡ false
    → matches ss item ≡ true
    → component_status_equal v ss ≡ false
unequal v ss item e f = elim (Bool-cases (component_status_equal v ss)) [
  | inl g ↦ absurd (let h = equal-matches v ss item g in cc)
  | inr g ↦ g
]

-- Taking away the status that was found leaves one less about the same.
pub count-remove_it :
    (item old : ComponentStatus) (vs : List ComponentStatus)
    → find vs item ≡ (old, true)
    → count item (remove_it old vs) + 1 ≡ count item vs
count-remove_it item old [] h = absurd (let f = ap (λ p. p.1) h in let g = find_nil item in cc)
count-remove_it item old (v ∷ vs) h = elim (Bool-cases (matches v item)) [
  | inl e ↦
      let same : v ≡ old = same_status (sym (find_at v item vs e) ∙ h) in
      ap (λ l. count item l + 1)
        (remove_at v old vs
          (ap (component_status_equal v) (sym same) ∙ component_status_equal_refl v))
      ∙ sym (count_at v item vs e)
  | inr e ↦
      let ih = count-remove_it item old vs (sym (find_past v item vs e) ∙ h) in
      let apart = unequal v old item e (find-matches item old (v ∷ vs) h) in
      ap (λ l. count item l + 1) (remove_past v old vs apart)
      ∙ ap (λ n. n + 1) (count_past v item (remove_it old vs) e)
      ∙ ih
      ∙ sym (count_past v item vs e)
]

-- Taking away a status leaves no more about anything.
pub count-remove_it_le :
    (item old : ComponentStatus) (vs : List ComponentStatus)
    → count item (remove_it old vs) ≤ count item vs
count-remove_it_le item old [] = unfold remove_it in omega arith
count-remove_it_le item old (v ∷ vs) = elim (Bool-cases (component_status_equal v old)) [
  | inl e ↦ rw (remove_at v old vs e) (count_le v item vs)
  | inr e ↦
      rw (remove_past v old vs e)
        (count_mono v item (remove_it old vs) vs (count-remove_it_le item old vs))
]

-- Nothing is found exactly where nothing is about the same.
pub find-none :
    (item : ComponentStatus) (vs : List ComponentStatus)
    → count item vs ≡ 0
    → (find vs item).1 ≡ false
find-none item [] h = find_nil item
find-none item (v ∷ vs) h = elim (Bool-cases (matches v item)) [
  | inl e ↦ absurd (omega (arith, h, count_at v item vs e))
  | inr e ↦
      ap (λ p. p.1) (find_past v item vs e) ∙ find-none item vs (sym (count_past v item vs e) ∙ h)
]

pub none-find :
    (item : ComponentStatus) (vs : List ComponentStatus)
    → (find vs item).1 ≡ false
    → count item vs ≡ 0
none-find item [] h = unfold count in refl
none-find item (v ∷ vs) h = elim (Bool-cases (matches v item)) [
  | inl e ↦ absurd (let f = ap (λ p. p.1) (find_at v item vs e) in cc)
  | inr e ↦
      count_past v item vs e ∙ none-find item vs (ap (λ p. p.1) (sym (find_past v item vs e)) ∙ h)
]

-- Taking away a status about something else changes nothing that is found.
find-remove_it :
    (item old : ComponentStatus) (vs : List ComponentStatus)
    → matches old item ≡ false
    → find (remove_it old vs) item ≡ find vs item
find-remove_it item old [] m = ap (λ l. find l item) (unfold remove_it in refl)
find-remove_it item old (v ∷ vs) m = elim (Bool-cases (component_status_equal v old)) [
  | inl e ↦
      ap (λ l. find l item) (remove_at v old vs e)
      ∙ sym (find_past v item vs (equal-matches v old item e ∙ m))
  | inr e ↦ ap (λ l. find l item) (remove_past v old vs e) ∙ elim (Bool-cases (matches v item)) [
    | inl f ↦ find_at v item (remove_it old vs) f ∙ sym (find_at v item vs f)
    | inr f ↦
        find_past v item (remove_it old vs) f
        ∙ find-remove_it item old vs m
        ∙ sym (find_past v item vs f)
  ]
]

find-append_other :
    (item new : ComponentStatus) (vs : List ComponentStatus)
    → matches new item ≡ false
    → find (vs ++ (new ∷ [])) item ≡ find vs item
find-append_other item new [] m = find_past new item [] m
find-append_other item new (v ∷ vs) m = elim (Bool-cases (matches v item)) [
  | inl e ↦ find_at v item (vs ++ (new ∷ [])) e ∙ sym (find_at v item vs e)
  | inr e ↦
      find_past v item (vs ++ (new ∷ [])) e
      ∙ find-append_other item new vs m
      ∙ sym (find_past v item vs e)
]

count-append :
    (item : ComponentStatus) (vs ws : List ComponentStatus)
    → count item (vs ++ ws) ≡ count item vs + count item ws
count-append item [] ws = unfold count in omega arith
count-append item (v ∷ vs) ws = elim (Bool-cases (matches v item)) [
  | inl e ↦
      omega (arith, count_at v item (vs ++ ws) e, count_at v item vs e, count-append item vs ws)
  | inr e ↦
      omega (arith, count_past v item (vs ++ ws) e, count_past v item vs e, count-append item vs ws)
]

count_single : (item new : ComponentStatus) → matches new item ≡ true → count item (new ∷ []) ≡ 1
count_single item new m = count_at new item [] m ∙ (unfold count in omega arith)

-- Let exactly one status be about a component and a description, and let `old` be the one that is
-- found. After the new status, about the same, has replaced it, the new one is found, and it is
-- again the only one about the same.
pub replace-find :
    (old new : ComponentStatus) (vs : List ComponentStatus)
    → count new vs ≡ 1
    → find vs new ≡ (old, true)
    → (find (replace old new vs) new ≡ (new, true)) × (count new (replace old new vs) ≡ 1)
unfolding replace
replace-find old new vs c h =
    let gone : count new (remove_it old vs) ≡ 0 = omega (arith, c, count-remove_it new old vs h) in
    let self : matches new new ≡ true =
      (unfold matches in rw (eq_refl new.description, eq_refl new.component) refl) in
    (
      find-append new (remove_it old vs) (new ∷ []) gone ∙ find_at new new [] self,
      omega
          (arith, gone, count-append new (remove_it old vs) (new ∷ []), count_single new new self),
    )

-- Replacing a status changes nothing that is found about any other component and description.
pub replace-find_other :
    (old new item : ComponentStatus) (vs : List ComponentStatus)
    → matches old item ≡ false
    → matches new item ≡ false
    → find (replace old new vs) item ≡ find vs item
unfolding replace
replace-find_other old new item vs mo mn =
    find-append_other item new (remove_it old vs) mn ∙ find-remove_it item old vs mo
