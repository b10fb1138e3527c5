-- ===== src/Tests/Red.antt =====
-- A cluster that is red, as the restart and the upgrade see it.
use mathlib.Core.Path.{subst}
use opensearch_k8s_operator.Prelude.{◌≡◌, sym, inl, inr, eq_iff}
use opensearch_k8s_operator.Api.{Error, Health, Cluster}
use opensearch_k8s_operator.Exec.{History, Result, ok}
use opensearch_k8s_operator.Exec.Adds.{Adds}
use opensearch_k8s_operator.Exec.Kinds.{deletion}
use opensearch_k8s_operator.Gateway.Health.Ready.{Quiet}
use opensearch_k8s_operator.Restart.Run.{reconcile}
use opensearch_k8s_operator.Restart.Run.Single.{reconcile-unquiet}
use opensearch_k8s_operator.Upgrade.Run
use opensearch_k8s_operator.Upgrade.Run.Deletes.{upgrade-unquiet}
use opensearch_k8s_operator.Tests.Data.{cluster, majors, red, red_services}

ok_inj : {A : Type 0} {a b : A} → ◌≡◌ {A = Result Error A} (ok a) (ok b) → a ≡ b
ok_inj e = cc

red-unquiet : ¬ Quiet red
red-unquiet (inl e) = let h = (eq_iff "red" "green").1 e in cc
red-unquiet (inr (e, q, r)) = let h = (eq_iff "red" "yellow").1 e in cc

red_services-unquiet :
    (h : History) (health : Health) → red_services.get_health h ≡ ok health → ¬ Quiet health
red_services-unquiet h health e q = red-unquiet (subst Quiet (sym (ok_inj e)) q)

abbrev at_its_version : Cluster
at_its_version = record cluster { version = "11" }

reconcile-unquiet_example : Adds deletion 0 (reconcile red_services at_its_version)
reconcile-unquiet_example = reconcile-unquiet red_services at_its_version red_services-unquiet

upgrade-unquiet_example : Adds deletion 0 (Run.reconcile majors red_services cluster)
upgrade-unquiet_example = upgrade-unquiet majors red_services cluster red_services-unquiet
