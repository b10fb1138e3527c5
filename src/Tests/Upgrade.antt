-- ===== src/Tests/Upgrade.antt =====
-- The upgrade at concrete inputs.
use opensearch_k8s_operator.Prelude.{
  ℕ, zero, suc, ◌-◌, ◌≡◌, ◌↔◌, ◌∙◌, ap, refl, inl, inr, true, false, some, [], ◌∷◌, String, ◌<>◌,
  ltb, arith,
}
use opensearch_k8s_operator.Exec.{ok, err}
use opensearch_k8s_operator.Exec.Adds.{Adds}
use opensearch_k8s_operator.Exec.Kinds.{deletion}
use opensearch_k8s_operator.Helpers.Status.Laws.{count, matches}
use opensearch_k8s_operator.Upgrade.Version.{validate_upgrade, version_downgrade}
use opensearch_k8s_operator.Upgrade.Version.Allowed.{Documented, validate_upgrade-allowed}
use opensearch_k8s_operator.Upgrade.Pick.{find_next_node_pool_for_upgrade, untouched}
use opensearch_k8s_operator.Upgrade.Pick.Order.{Right, find_next_node_pool_for_upgrade-Right}
use opensearch_k8s_operator.Upgrade.Run.{reconcile, finished}
use opensearch_k8s_operator.Upgrade.Run.Deletes.{upgrade-one_pod}
use opensearch_k8s_operator.Upgrade.Run.Finish.{finished-untouched}
use opensearch_k8s_operator.Tests.Data.{
  services, cluster, data_pool, data_upgraded, majors, ones, letters,
}
use Prim.Native.String.append

upgrade-one_pod_example : Adds deletion 1 (reconcile majors services cluster)
upgrade-one_pod_example = upgrade-one_pod majors services cluster

find_next_node_pool_for_upgrade-Right_example :
    Right
      (data_upgraded ∷ [])
      cluster.node_pools
      (find_next_node_pool_for_upgrade (data_upgraded ∷ []) cluster.node_pools)
find_next_node_pool_for_upgrade-Right_example =
    find_next_node_pool_for_upgrade-Right (data_upgraded ∷ []) cluster.node_pools

finished-untouched_example :
    (untouched (finished cluster).status.components_status data_pool ≡ true)
    × ((finished cluster).status.version ≡ "111")
    × ((finished cluster).status.phase ≡ "RUNNING")
unfolding count matches
finished-untouched_example = finished-untouched cluster data_pool (inr (inl refl)) (omega arith)

letters-ones : (n : ℕ) → letters (ones n) ≡ n
unfolding letters ones
letters-ones zero = refl
letters-ones (suc n) = ap suc (letters-ones n)

letters-bound : (n : ℕ) → letters ("< " <> ones n) - 2 ≡ n
unfolding letters
letters-bound n =
    ap (λ s. letters s - 2)
      (append.cons "<" " " (ones n) ∙ ap (String.◌∷◌ "<") (append.cons " " "" (ones n)))
    ∙ ap (λ s. suc (suc (letters s)) - 2) (append.nil (ones n))
    ∙ omega (arith, letters-ones n)

abbrev majors_documented : Documented majors
majors_documented = record {
  IsRelease = λ v. Unit {0};
  below = λ bound v r. ap (λ n. some (ltb v n)) (letters-bound bound);
}

validate_upgrade-allowed_example :
    ((validate_upgrade majors "11" "111" ≡ ok tt)
      ↔ ((ltb 3 2 ≡ false) × (ltb 3 (suc (suc 2)) ≡ true)))
    × ((validate_upgrade majors "11" "111" ≡ err version_downgrade) ↔ (ltb 3 2 ≡ true))
unfolding letters
validate_upgrade-allowed_example =
    validate_upgrade-allowed majors "11" "111" 2 3 majors_documented tt refl refl
