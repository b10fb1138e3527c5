-- ===== src/Text/Order.antt =====
-- sort.Strings. Go orders texts by the bytes of UTF-8, which is the order of the code points.
use Prim.Native.Char.{code}
use opensearch_k8s_operator.Prelude.{
  ◌≡◌, refl, Bool, true, false, List, [], ◌∷◌, String, ltb, nat_eq, if◌then◌else◌,
}

unfoldable pub text_leb : String → String → Bool
text_leb String.[] t = true
text_leb (String.◌∷◌ c s) String.[] = false
text_leb (String.◌∷◌ c s) (String.◌∷◌ d t) =
    let rest = text_leb s t in
    if ltb (code c) (code d) then true else if nat_eq (code c) (code d) then rest else false

-- Sorting by insertion: no two orders of one list are sorted differently, as equal texts are one.
unfoldable pub insert_text : String → List String → List String
insert_text s [] = s ∷ []
insert_text s (t ∷ ts) =
    let rest = insert_text s ts in if text_leb s t then s ∷ t ∷ ts else t ∷ rest

unfoldable pub sort_strings : List String → List String
unfolding insert_text
sort_strings [] = []
sort_strings (s ∷ ss) = insert_text s (sort_strings ss)

sorts : sort_strings ("b" ∷ "ab" ∷ "a" ∷ []) ≡ "a" ∷ "ab" ∷ "b" ∷ []
unfolding sort_strings text_leb
sorts = refl
