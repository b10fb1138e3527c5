-- ===== src/Restart/Candidates/Ordinal.antt =====
-- Ordinals in the names of pods.
use opensearch_k8s_operator.Prelude.{ℕ, ◌<◌, ◌≡◌, refl, sym, ◌∙◌, ap, String, ◌<>◌, arith}
use opensearch_k8s_operator.Prelude.Int.{ℤ, pos}
use opensearch_k8s_operator.Text.{split, last_or, atoi, show_ℕ, show_ℤ}
use opensearch_k8s_operator.Text.Split.{last-split}
use opensearch_k8s_operator.Text.Decimal.{atoi-show_ℕ, show_ℕ-Lacks}
use opensearch_k8s_operator.Api.{StatefulSet}
use opensearch_k8s_operator.Helpers.Pods.{replica_host_name}
use opensearch_k8s_operator.Restart.Candidates.{parse_ordinal_from_name, or_minus_one}
use Prim.Native.String.append

dash-append : (s : String) → "-" <> s ≡ String.◌∷◌ "-" s
dash-append s = append.cons "-" "" s ∙ ap (String.◌∷◌ "-") (append.nil s)

-- The ordinal of a pod is read back from the name that its StatefulSet gives it, whatever dashes and
-- digits the name of the StatefulSet has.
pub parse_ordinal_from_name-replica_host_name :
    (sts : StatefulSet) (n : ℕ)
    → n < 9223372036854775808
    → parse_ordinal_from_name (replica_host_name sts (pos n)) ≡ pos n
unfolding parse_ordinal_from_name replica_host_name show_ℤ
parse_ordinal_from_name-replica_host_name sts n h =
    ap (λ s. or_minus_one (atoi (last_or "" (split 45 (sts.name <> s))))) (dash-append (show_ℕ n))
    ∙ ap (λ s. or_minus_one (atoi s))
        (last-split 45 "-" (show_ℕ n) (show_ℕ-Lacks n 45 (omega arith)) refl sts.name "")
    ∙ ap or_minus_one (atoi-show_ℕ n h)

pos_inj : {m n : ℕ} → ◌≡◌ {A = ℤ} (pos m) (pos n) → m ≡ n
pos_inj e = cc

-- Two ordinals of a StatefulSet with one pod name are one ordinal.
pub replica_host_name_inj :
    (sts : StatefulSet) (m n : ℕ)
    → m < 9223372036854775808
    → n < 9223372036854775808
    → replica_host_name sts (pos m) ≡ replica_host_name sts (pos n)
    → m ≡ n
replica_host_name_inj sts m n hm hn e = pos_inj (
    sym (parse_ordinal_from_name-replica_host_name sts m hm)
    ∙ ap parse_ordinal_from_name e
    ∙ parse_ordinal_from_name-replica_host_name sts n hn)
