-- ===== src/Text/Sorted.antt =====
-- Sorting gives the same list for every order of its texts.
use Prim.Native.Char.{Char, code}
use text.Mathlib.TextEquality.{codes_equal}
use mathlib.Core.List.{Permᴰ}
use opensearch_k8s_operator.Prelude.{
  ◌≡◌, refl, sym, ap, ◌∙◌, true, false, inl, inr, List, [], ◌∷◌, String, nat_eq, arith, Bool-cases,
  if◌then◌else◌,
}
use opensearch_k8s_operator.Text.Order.{text_leb, insert_text, sort_strings}

char_path : (c d : Char) → nat_eq (code c) (code d) ≡ true → c ≡ d
char_path c d e = codes_equal c d (ground arith)

total : (s t : String) → text_leb s t ≡ false → text_leb t s ≡ true
unfolding text_leb
total String.[] t e = absurd (cc)
total (String.◌∷◌ c s) String.[] e = refl
total (String.◌∷◌ c s) (String.◌∷◌ d t) e = ground (arith, total s t)

antisymmetric : (s t : String) → text_leb s t ≡ true → text_leb t s ≡ true → s ≡ t
unfolding text_leb
antisymmetric String.[] String.[] e f = refl
antisymmetric String.[] (String.◌∷◌ d t) e f = absurd (cc)
antisymmetric (String.◌∷◌ c s) String.[] e f = absurd (cc)
antisymmetric (String.◌∷◌ c s) (String.◌∷◌ d t) e f = elim (Bool-cases (nat_eq (code c) (code d))) [
  | inl x ↦ λ i. String.◌∷◌ (char_path c d x i) (antisymmetric s t (ground arith) (ground arith) i)
  | inr x ↦ absurd (ground arith)
]

transitive : (s t u : String) → text_leb s t ≡ true → text_leb t u ≡ true → text_leb s u ≡ true
unfolding text_leb
transitive String.[] t u e f = refl
transitive (String.◌∷◌ c s) String.[] u e f = absurd (cc)
transitive (String.◌∷◌ c s) (String.◌∷◌ d t) String.[] e f = absurd (cc)
transitive (String.◌∷◌ c s) (String.◌∷◌ d t) (String.◌∷◌ b u) e f = ground (arith, transitive s t u)

-- The two texts that are inserted change places.
pair :
    (a b : String) (l : List String)
    → (if text_leb a b then a ∷ b ∷ l else b ∷ a ∷ l)
      ≡ (if text_leb b a then b ∷ a ∷ l else a ∷ b ∷ l)
pair a b l = elim (Bool-cases (text_leb a b)) [
  | inl e ↦ elim (Bool-cases (text_leb b a)) [
    | inl f ↦ let p = antisymmetric a b e f in rw e (rw f (λ i. p i ∷ sym p i ∷ l))
    | inr f ↦ rw e (rw f refl)
  ]
  | inr e ↦ rw e (rw (total a b e) refl)
]

insert_text_comm :
    (a b : String) (l : List String)
    → insert_text a (insert_text b l) ≡ insert_text b (insert_text a l)
unfolding insert_text
insert_text_comm a b [] = pair a b []
insert_text_comm a b (x ∷ l) = elim (Bool-cases (text_leb a x)) [
  | inl e ↦ elim (Bool-cases (text_leb b x)) [
    | inl f ↦ rw e (rw f (rw e (pair a b (x ∷ l))))
    | inr f ↦ elim (Bool-cases (text_leb b a)) [
      | inl g ↦ let t = transitive b a x g e in absurd (cc)
      | inr g ↦ rw e (rw f (rw e (rw g refl)))
    ]
  ]
  | inr e ↦ elim (Bool-cases (text_leb b x)) [
    | inl f ↦ elim (Bool-cases (text_leb a b)) [
      | inl g ↦ let t = transitive a b x g f in absurd (cc)
      | inr g ↦ rw e (rw f (rw g (rw e refl)))
    ]
    | inr f ↦ rw e (rw f (rw e (ap (λ r. x ∷ r) (insert_text_comm a b l))))
  ]
]

pub sort_strings-Perm : (l m : List String) → Permᴰ l m → sort_strings l ≡ sort_strings m
unfolding sort_strings
sort_strings-Perm l m Permᴰ.nil = refl
sort_strings-Perm (a ∷ l) (b ∷ m) (Permᴰ.cons e p) =
    λ i. insert_text (e i) (sort_strings-Perm l m p i)
sort_strings-Perm (a ∷ b ∷ l) (c ∷ d ∷ _) (Permᴰ.swap e f) =
    insert_text_comm a b (sort_strings l)
    ∙ (λ i. insert_text (f i) (insert_text (e i) (sort_strings l)))
sort_strings-Perm l m (Permᴰ.trans {l₂ = k} p q) = sort_strings-Perm l k p ∙ sort_strings-Perm k m q
