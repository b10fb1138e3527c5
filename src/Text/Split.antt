-- ===== src/Text/Split.antt =====
-- Laws of `split` and `join`.
use Prim.Native.Char.{Char, code}
use Prim.Native.String.append
use text.Mathlib.TextEquality.{Char-path}
use opensearch_k8s_operator.Prelude.{
  ℕ, ◌≡◌, refl, sym, ◌≢◌, ◌∙◌, ap, List, [], ◌∷◌, inl, inr, String, ◌<>◌, arith, nat_eq, Bool-cases,
  All,
}
use opensearch_k8s_operator.Text.{split, join, cons_head, last_or}

-- No character of the text has the code `sep`.
abbrev pub Lacks : ℕ → String → Type 0
Lacks sep String.[] = Unit {0}
Lacks sep (String.◌∷◌ c s) = (code c ≢ sep) × Lacks sep s

cons_head-ne-nil : (c : Char) (ps : List String) → cons_head c ps ≢ []
cons_head-ne-nil c [] = cc
cons_head-ne-nil c (p ∷ ps) = cc

pub split-ne-nil : (sep : ℕ) (s : String) → split sep s ≢ []
unfolding split
split-ne-nil sep String.[] = cc
split-ne-nil sep (String.◌∷◌ c s) = elim (Bool-cases (nat_eq (code c) sep)) [
  | inl e ↦ rw e (cc)
  | inr e ↦ rw e (cons_head-ne-nil c (split sep s))
]

split_at :
    (sep : ℕ) (c : Char) (s : String) → code c ≡ sep → split sep (String.◌∷◌ c s) ≡ "" ∷ split sep s
unfolding split
split_at sep c s e = ground arith

split_past :
    (sep : ℕ) (c : Char) (s : String)
    → code c ≢ sep
    → split sep (String.◌∷◌ c s) ≡ cons_head c (split sep s)
unfolding split
split_past sep c s e = ground arith

-- A text with no separator is the one part.
pub split_of_Lacks : (sep : ℕ) (s : String) → Lacks sep s → split sep s ≡ s ∷ []
split_of_Lacks sep String.[] h = unfold split in refl
split_of_Lacks sep (String.◌∷◌ c s) h =
    split_past sep c s h.0 ∙ ap (cons_head c) (split_of_Lacks sep s h.1)

-- The part before the first separator, and the parts behind it.
pub split-append :
    (sep : ℕ) (p : String) (c : Char) (s : String)
    → Lacks sep p
    → code c ≡ sep
    → split sep (p <> String.◌∷◌ c s) ≡ p ∷ split sep s
split-append sep String.[] c s h e = rw append.nil (split_at sep c s e)
split-append sep (String.◌∷◌ d p) c s h e =
    rw append.cons
      (split_past sep d (p <> String.◌∷◌ c s) h.0 ∙ ap (cons_head d) (split-append sep p c s h.1 e))

comma-append : (s : String) → "," <> s ≡ String.◌∷◌ "," s
comma-append s = append.cons "," "" s ∙ ap (String.◌∷◌ ",") (append.nil s)

-- Splitting a join gives the parts back, if there is a part and none holds a comma.
pub split-join : (ps : List String) → ps ≢ [] → All (Lacks 44) ps → split 44 (join "," ps) ≡ ps
unfolding join
split-join [] h l = absurd (h refl)
split-join (p ∷ []) h l = split_of_Lacks 44 p l.0
split-join (p ∷ q ∷ ps) h l =
    ap (λ s. split 44 (p <> s)) (comma-append (join "," (q ∷ ps)))
    ∙ split-append 44 p "," (join "," (q ∷ ps)) l.0 refl
    ∙ ap (λ rest. p ∷ rest) (split-join (q ∷ ps) (cc) l.1)

-- At least two parts, and the last of them.
abbrev TwoParts : List String → String → Type 0
TwoParts parts t =
    (p : String) × (q : String) × (ps : List String) × (parts ≡ p ∷ q ∷ ps) × (last_or q ps ≡ t)

last-TwoParts :
    (d : String) (parts : List String) (t : String) → TwoParts parts t → last_or d parts ≡ t
last-TwoParts d parts t (p, q, ps, e, l) = rw e l

split-TwoParts :
    (sep : ℕ) (c : Char) (t : String)
    → Lacks sep t
    → code c ≡ sep
    → (s : String) → TwoParts (split sep (s <> String.◌∷◌ c t)) t
split-TwoParts sep c t h e String.[] = (
  "",
  t,
  [],
  rw append.nil (split_at sep c t e ∙ ap (λ r. "" ∷ r) (split_of_Lacks sep t h)),
  refl,
)
split-TwoParts sep c t h e (String.◌∷◌ b s) =
    let (p, q, ps, eq, l) = split-TwoParts sep c t h e s in
    let rest : String = s <> String.◌∷◌ c t in
    elim (Bool-cases (nat_eq (code b) sep)) [
      | inl m ↦ (
        "",
        p,
        q ∷ ps,
        rw append.cons (split_at sep b rest (ground arith) ∙ ap (λ r. "" ∷ r) eq),
        l,
      )
      | inr m ↦ (
        String.◌∷◌ b p,
        q,
        ps,
        rw append.cons (split_past sep b rest (ground arith) ∙ ap (cons_head b) eq),
        l,
      )
    ]

-- The last part of a text is what stands behind its last separator.
pub last-split :
    (sep : ℕ) (c : Char) (t : String)
    → Lacks sep t
    → code c ≡ sep
    → (s d : String) → last_or d (split sep (s <> String.◌∷◌ c t)) ≡ t
last-split sep c t h e s d = last-TwoParts d _ t (split-TwoParts sep c t h e s)

-- Joining the parts of a split gives the text back.
join-cons_head :
    (c : Char) (ps : List String) → join "," (cons_head c ps) ≡ String.◌∷◌ c (join "," ps)
unfolding join
join-cons_head c [] = refl
join-cons_head c (p ∷ []) = refl
join-cons_head c (p ∷ q ∷ ps) = append.cons c p ("," <> join "," (q ∷ ps))

join-nil_part : (ps : List String) → ps ≢ [] → join "," ("" ∷ ps) ≡ String.◌∷◌ "," (join "," ps)
unfolding join
join-nil_part [] h = absurd (h refl)
join-nil_part (p ∷ ps) h = append.nil _ ∙ comma-append (join "," (p ∷ ps))

pub join-split : (s : String) → join "," (split 44 s) ≡ s
join-split String.[] = unfold split join in refl
join-split (String.◌∷◌ c s) = elim (Bool-cases (nat_eq (code c) 44)) [
  | inl m ↦
      let is_comma : code c ≡ 44 = ground arith in
      rw (split_at 44 c s is_comma, join-nil_part (split 44 s) (split-ne-nil 44 s), join-split s)
        (ap (λ d. String.◌∷◌ d s) (Char-path "," c (sym is_comma)))
  | inr m ↦ rw (split_past 44 c s (ground arith), join-cons_head c (split 44 s), join-split s)
]

All-cons_head :
    (sep : ℕ) (c : Char) (ps : List String)
    → code c ≢ sep
    → All (Lacks sep) ps
    → All (Lacks sep) (cons_head c ps)
All-cons_head sep c [] n l = ((n, tt), tt)
All-cons_head sep c (p ∷ ps) n l = ((n, l.0), l.1)

-- No part of a split holds the separator.
pub split-Lacks : (sep : ℕ) (s : String) → All (Lacks sep) (split sep s)
split-Lacks sep String.[] = unfold split in (tt, tt)
split-Lacks sep (String.◌∷◌ c s) = elim (Bool-cases (nat_eq (code c) sep)) [
  | inl m ↦ rw (split_at sep c s (ground arith)) (tt, split-Lacks sep s)
  | inr m ↦
      let past : code c ≢ sep = ground arith in
      rw (split_past sep c s past) (All-cons_head sep c (split sep s) past (split-Lacks sep s))
]
