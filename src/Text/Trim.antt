-- ===== src/Text/Trim.antt =====
-- Laws of `trim_space` and `fields`.
use Prim.Native.Char.{Char, code}
use Prim.Native.String.append
use opensearch_k8s_operator.Prelude.{
  ℕ, ◌≡◌, refl, sym, ◌≢◌, ◌∙◌, ap, Bool, true, false, ◌&&◌, List, [], ◌∷◌, inl, inr, String, ◌<>◌,
  if◌then◌else◌, Bool-cases,
}
use opensearch_k8s_operator.Text.{
  is_space, is_empty, trim_left, trim_right, trim_space, fields, fields_from, cons_head,
}
use opensearch_k8s_operator.Text.Split.{Lacks}

-- The text is empty or begins with no space.
abbrev StartsClean : String → Type 0
StartsClean String.[] = Unit {0}
StartsClean (String.◌∷◌ c s) = is_space (code c) ≡ false

-- The text holds no space.
abbrev pub Spaceless : String → Type 0
Spaceless String.[] = Unit {0}
Spaceless (String.◌∷◌ c s) = (is_space (code c) ≡ false) × Spaceless s

trim_left_space :
    (c : Char) (s : String) → is_space (code c) ≡ true → trim_left (String.◌∷◌ c s) ≡ trim_left s
unfolding trim_left
trim_left_space c s e = rw e

trim_left_clean :
    (c : Char) (s : String)
    → is_space (code c) ≡ false
    → trim_left (String.◌∷◌ c s) ≡ String.◌∷◌ c s
unfolding trim_left
trim_left_clean c s e = rw e

trim_left-StartsClean : (s : String) → StartsClean (trim_left s)
trim_left-StartsClean String.[] = unfold trim_left in tt
trim_left-StartsClean (String.◌∷◌ c s) = elim (Bool-cases (is_space (code c))) [
  | inl e ↦ rw (trim_left_space c s e) (trim_left-StartsClean s)
  | inr e ↦ rw (trim_left_clean c s e) e
]

trim_left_of_StartsClean : (s : String) → StartsClean s → trim_left s ≡ s
trim_left_of_StartsClean String.[] h = unfold trim_left in refl
trim_left_of_StartsClean (String.◌∷◌ c s) h = trim_left_clean c s h

trim_left-Lacks : (sep : ℕ) (s : String) → Lacks sep s → Lacks sep (trim_left s)
trim_left-Lacks sep String.[] h = unfold trim_left in tt
trim_left-Lacks sep (String.◌∷◌ c s) h = elim (Bool-cases (is_space (code c))) [
  | inl e ↦ rw (trim_left_space c s e) (trim_left-Lacks sep s h.1)
  | inr e ↦ rw (trim_left_clean c s e) h
]

-- One round of `trim_right`, on the trimmed rest.
abbrev keep : Char → String → String
keep c rest = if is_space (code c) && is_empty rest then "" else String.◌∷◌ c rest

trim_right-cons : (c : Char) (s : String) → trim_right (String.◌∷◌ c s) ≡ keep c (trim_right s)
unfolding trim_right
trim_right-cons c s = refl

keep-Lacks : (sep : ℕ) (c : Char) (r : String) → code c ≢ sep → Lacks sep r → Lacks sep (keep c r)
keep-Lacks sep c r n h = elim (Bool-cases (is_space (code c) && is_empty r)) [
  | inl e ↦ rw e tt
  | inr e ↦ rw e (n, h)
]

trim_right-Lacks : (sep : ℕ) (s : String) → Lacks sep s → Lacks sep (trim_right s)
trim_right-Lacks sep String.[] h = unfold trim_right in tt
trim_right-Lacks sep (String.◌∷◌ c s) h =
    rw (trim_right-cons c s) (keep-Lacks sep c (trim_right s) h.0 (trim_right-Lacks sep s h.1))

keep_idem : (c : Char) (r : String) → trim_right r ≡ r → trim_right (keep c r) ≡ keep c r
keep_idem c r h = elim (Bool-cases (is_space (code c) && is_empty r)) [
  | inl e ↦ rw e (unfold trim_right in refl)
  | inr e ↦ rw (e, trim_right-cons c r, h, e)
]

trim_right_idem : (s : String) → trim_right (trim_right s) ≡ trim_right s
trim_right_idem String.[] = unfold trim_right in refl
trim_right_idem (String.◌∷◌ c s) =
    rw (trim_right-cons c s) (keep_idem c (trim_right s) (trim_right_idem s))

keep-StartsClean : (c : Char) (r : String) → is_space (code c) ≡ false → StartsClean (keep c r)
keep-StartsClean c r e = rw e e

trim_right-StartsClean : (s : String) → StartsClean s → StartsClean (trim_right s)
trim_right-StartsClean String.[] h = unfold trim_right in tt
trim_right-StartsClean (String.◌∷◌ c s) h =
    rw (trim_right-cons c s) (keep-StartsClean c (trim_right s) h)

pub trim_space-Lacks : (sep : ℕ) (s : String) → Lacks sep s → Lacks sep (trim_space s)
unfolding trim_space
trim_space-Lacks sep s h = trim_right-Lacks sep (trim_left s) (trim_left-Lacks sep s h)

-- Trimming a trimmed text changes nothing.
pub trim_space_idem : (s : String) → trim_space (trim_space s) ≡ trim_space s
unfolding trim_space
trim_space_idem s =
    ap trim_right (
      trim_left_of_StartsClean (trim_right (trim_left s))
        (trim_right-StartsClean (trim_left s) (trim_left-StartsClean s)))
    ∙ trim_right_idem (trim_left s)

trim_right_of_Spaceless : (s : String) → Spaceless s → trim_right s ≡ s
trim_right_of_Spaceless String.[] h = unfold trim_right in refl
trim_right_of_Spaceless (String.◌∷◌ c s) h =
    rw (trim_right-cons c s, trim_right_of_Spaceless s h.1, h.0)

Spaceless-StartsClean : (s : String) → Spaceless s → StartsClean s
Spaceless-StartsClean String.[] h = tt
Spaceless-StartsClean (String.◌∷◌ c s) h = h.0

pub trim_space_of_Spaceless : (s : String) → Spaceless s → trim_space s ≡ s
unfolding trim_space
trim_space_of_Spaceless s h =
    ap trim_right (trim_left_of_StartsClean s (Spaceless-StartsClean s h))
    ∙ trim_right_of_Spaceless s h

-- One round of the field scanner behind an open or a closed field.
abbrev close : Bool → List String → List String
close true ps = "" ∷ ps
close false ps = ps

fields_from_space :
    (b : Bool) (c : Char) (s : String)
    → is_space (code c) ≡ true
    → fields_from b (String.◌∷◌ c s) ≡ close b (fields_from false s)
unfolding fields_from
fields_from_space true c s e = rw (e, fields_from)
fields_from_space false c s e = rw (e, fields_from)

fields_from_clean :
    (b : Bool) (c : Char) (s : String)
    → is_space (code c) ≡ false
    → fields_from b (String.◌∷◌ c s) ≡ cons_head c (fields_from true s)
unfolding fields_from
fields_from_clean true c s e = rw (e, fields_from)
fields_from_clean false c s e = rw (e, fields_from)

fields_from-nil : (b : Bool) → fields_from b "" ≡ close b []
unfolding fields_from
fields_from-nil true = refl
fields_from-nil false = refl

fields_from-keep :
    (b : Bool) (c : Char) (r s : String)
    → fields_from false r ≡ fields_from false s
    → fields_from true r ≡ fields_from true s
    → fields_from b (keep c r) ≡ fields_from b (String.◌∷◌ c s)
fields_from-keep b c String.[] s f t = elim (Bool-cases (is_space (code c))) [
  | inl e ↦ rw e (
      fields_from-nil b
      ∙ ap (close b) (sym (fields_from-nil false) ∙ f)
      ∙ sym (fields_from_space b c s e))
  | inr e ↦ rw e (fields_from_clean b c "" e ∙ ap (cons_head c) t ∙ sym (fields_from_clean b c s e))
]
fields_from-keep b c (String.◌∷◌ d r) s f t = elim (Bool-cases (is_space (code c))) [
  | inl e ↦
      rw e (
        fields_from_space b c (String.◌∷◌ d r) e ∙ ap (close b) f ∙ sym (fields_from_space b c s e))
  | inr e ↦ rw e (
      fields_from_clean b c (String.◌∷◌ d r) e
      ∙ ap (cons_head c) t
      ∙ sym (fields_from_clean b c s e))
]

fields_from-trim_right : (b : Bool) (s : String) → fields_from b (trim_right s) ≡ fields_from b s
fields_from-trim_right b String.[] = unfold trim_right in refl
fields_from-trim_right b (String.◌∷◌ c s) = rw (trim_right-cons c s) (
    fields_from-keep b c (trim_right s) s (fields_from-trim_right false s)
      (fields_from-trim_right true s))

fields_from-trim_left : (s : String) → fields_from false (trim_left s) ≡ fields_from false s
fields_from-trim_left String.[] = unfold trim_left in refl
fields_from-trim_left (String.◌∷◌ c s) = elim (Bool-cases (is_space (code c))) [
  | inl e ↦
      rw (trim_left_space c s e) (fields_from-trim_left s ∙ sym (fields_from_space false c s e))
  | inr e ↦ rw (trim_left_clean c s e)
]

-- Trimming first does not change the fields.
pub fields-trim_space : (s : String) → fields (trim_space s) ≡ fields s
unfolding trim_space fields
fields-trim_space s = fields_from-trim_right false (trim_left s) ∙ fields_from-trim_left s

fields_from_open :
    (n : String) (c : Char) (s : String)
    → Spaceless n
    → is_space (code c) ≡ true
    → fields_from true (n <> String.◌∷◌ c s) ≡ n ∷ fields_from false s
fields_from_open String.[] c s h e = rw append.nil (fields_from_space true c s e)
fields_from_open (String.◌∷◌ d n) c s h e = rw append.cons (
    fields_from_clean true d (n <> String.◌∷◌ c s) h.0
    ∙ ap (cons_head d) (fields_from_open n c s h.1 e))

fields_from_all : (n : String) → Spaceless n → fields_from true n ≡ n ∷ []
fields_from_all String.[] h = fields_from-nil true
fields_from_all (String.◌∷◌ d n) h =
    fields_from_clean true d n h.0 ∙ ap (cons_head d) (fields_from_all n h.1)

-- The first field ends at the first space.
pub fields-append :
    (n : String) (c : Char) (s : String)
    → n ≢ ""
    → Spaceless n
    → is_space (code c) ≡ true
    → fields (n <> String.◌∷◌ c s) ≡ n ∷ fields s
unfolding fields
fields-append String.[] c s ne h e = absurd (ne refl)
fields-append (String.◌∷◌ d n) c s ne h e = rw append.cons (
    fields_from_clean false d (n <> String.◌∷◌ c s) h.0
    ∙ ap (cons_head d) (fields_from_open n c s h.1 e))

-- A text with no space is its only field.
pub fields_of_Spaceless : (n : String) → n ≢ "" → Spaceless n → fields n ≡ n ∷ []
unfolding fields
fields_of_Spaceless String.[] ne h = absurd (ne refl)
fields_of_Spaceless (String.◌∷◌ d n) ne h =
    fields_from_clean false d n h.0 ∙ ap (cons_head d) (fields_from_all n h.1)
