-- ===== src/Text/Prefix.antt =====
-- strings.HasPrefix with strings.TrimPrefix, and strings.TrimRight with a single character.
use Prim.Native.Char.{code}
use opensearch_k8s_operator.Prelude.{
  ℕ, ◌≡◌, refl, ◌&&◌, Option, none, some, String, nat_eq, if◌then◌else◌,
}
use opensearch_k8s_operator.Text.{is_empty}

-- What follows the prefix, if it is one.
unfoldable pub strip_prefix : String → String → Option String
strip_prefix String.[] s = some s
strip_prefix (String.◌∷◌ p ps) String.[] = none
strip_prefix (String.◌∷◌ p ps) (String.◌∷◌ c s) =
    let rest = strip_prefix ps s in if nat_eq (code p) (code c) then rest else none

unfoldable pub trim_right_of : ℕ → String → String
trim_right_of k String.[] = ""
trim_right_of k (String.◌∷◌ c s) =
    let rest = trim_right_of k s in
    if nat_eq (code c) k && is_empty rest then "" else String.◌∷◌ c rest

strips :
    (strip_prefix "retry:" "retry:5" ≡ some "5")
    × (strip_prefix "retry:" "lastRetry:" ≡ none)
    × (trim_right_of 47 "/a/b//" ≡ "/a/b")
unfolding strip_prefix trim_right_of
strips = (refl, refl, refl)
