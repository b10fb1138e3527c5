-- ===== src/Upgrade/Run/Deletes.antt =====
-- How many pods one run of the upgrade deletes.
use opensearch_k8s_operator.Prelude.{
  ℕ, ◌≡◌, refl, Bool, not, true, false, Option, none, some, [], String, ◌==◌, if◌then◌else◌,
}
use opensearch_k8s_operator.Api.{Health, Cluster, NodePool}
use opensearch_k8s_operator.Exec.{History, ok, failing, pure}
use opensearch_k8s_operator.Exec.Emits.{
  Emits, Emits-pure, Emits-lift, Emits-bind, Emits-failing, Emits-if,
}
use opensearch_k8s_operator.Exec.Adds.{
  Adds, Adds-Emits, Adds-behind, Adds-before, Adds-if, Adds-failing,
}
use opensearch_k8s_operator.Exec.Kinds.{deletion}
use opensearch_k8s_operator.Services.{Services}
use opensearch_k8s_operator.Services.Calls.{update_status}
use opensearch_k8s_operator.Services.Status.{create_client-Emits, update_status_held-Emits}
use opensearch_k8s_operator.Util.{done, requeue_in}
use opensearch_k8s_operator.Util.Writes.{clean_stale_exclusion_list-Emits}
use opensearch_k8s_operator.Scaler.Pool.{held}
use opensearch_k8s_operator.Upgrade.Version.{Semver}
use opensearch_k8s_operator.Upgrade.Pick.{find_next_node_pool_for_upgrade}
use opensearch_k8s_operator.Upgrade.Pool.Deletes.{do_node_pool_upgrade-one_pod}
use opensearch_k8s_operator.Upgrade.Pool.{do_node_pool_upgrade}
use opensearch_k8s_operator.Upgrade.Pool.Unquiet.{do_node_pool_upgrade-unquiet}
use opensearch_k8s_operator.Gateway.Health.Ready.{Quiet}
use opensearch_k8s_operator.Upgrade.Run.{
  set_phase, work_on, upgrade_pools, clean_then_upgrade, reconcile,
}

module _ (semver : Semver) (sv : Services) (instance' : Cluster) (n : ℕ)
    (work : (pool : NodePool)
      → Adds deletion n (do_node_pool_upgrade semver sv instance' pool)) where
  work_on-Adds :
      (chosen : Option (NodePool × String)) → Adds deletion n (work_on semver sv instance' chosen)
  work_on-Adds none = Adds-Emits _ n (
      Emits-bind _ _
        (Emits-failing done _ (update_status_held-Emits (λ c. refl) sv (λ s b. refl) _))
        (λ _. Emits-pure done))
  work_on-Adds (some (pool, status)) =
      Adds-if n (status == "Pending") _ _
        (Adds-Emits _ n (
          Emits-bind _ _
            (Emits-failing _ _ (update_status_held-Emits (λ c. refl) sv (λ s b. refl) _))
            (λ _. Emits-pure _)))
        (Adds-before n _ _ (Adds-failing n (requeue_in 30) _ (work pool)) (λ _. Emits-pure _))

  upgrade_pools-Adds : Adds deletion n (upgrade_pools semver sv instance')
  unfolding upgrade_pools
  upgrade_pools-Adds =
      Adds-behind n held _ (record { at = λ w. ([], refl, tt) })
        (λ components.
          work_on-Adds (find_next_node_pool_for_upgrade components instance'.node_pools))

  clean_then_upgrade-Adds : Adds deletion n (clean_then_upgrade semver sv instance')
  unfolding clean_then_upgrade
  clean_then_upgrade-Adds =
      Adds-if n instance'.drain_data_nodes _ _
        (Adds-behind n _ _
          (Emits-failing done _
            (clean_stale_exclusion_list-Emits (λ c. refl) (λ p t b. refl) sv instance'))
          (λ res. Adds-if n res.requeue _ _ (Adds-Emits _ n (Emits-pure res)) upgrade_pools-Adds))
        upgrade_pools-Adds

  phase-Emits :
      (b : Bool)
      → Emits
          (λ e. deletion e ≡ 0)
          (failing done (if b then update_status sv (set_phase "UPGRADING") else pure tt))
  phase-Emits true = Emits-failing done _ (update_status_held-Emits (λ c. refl) sv (λ s b. refl) _)
  phase-Emits false = Emits-failing done _ (Emits-pure tt)

  reconcile-Adds : Adds deletion n (reconcile semver sv instance')
  unfolding reconcile
  reconcile-Adds =
      Adds-if n (instance'.version == instance'.status.version) _ _
        (Adds-Emits _ n (
          Emits-if (instance'.status.phase == "UPGRADING") _ _
            (λ _.
              Emits-bind _ _
                (Emits-failing done _ (update_status_held-Emits (λ c. refl) sv (λ s b. refl) _))
                (λ _. Emits-pure done))
            (λ _. Emits-pure done)))
        (Adds-if n (not instance'.status.initialized) _ _ (Adds-Emits _ n (Emits-pure _)) (
          Adds-behind n _ _ (Emits-failing done _ (Emits-lift _)) (λ _.
            Adds-behind n _ _ (phase-Emits (not (instance'.status.phase == "UPGRADING"))) (λ _.
              Adds-behind n _ _ (Emits-failing done _ (create_client-Emits (λ c. refl) sv))
                (λ _. clean_then_upgrade-Adds)))))

-- One run of the upgrade deletes at most one pod, whatever Kubernetes and OpenSearch answer at each
-- call, and whatever the library for versions says.
pub upgrade-one_pod :
    (semver : Semver) (sv : Services) (instance' : Cluster)
    → Adds deletion 1 (reconcile semver sv instance')
upgrade-one_pod semver sv instance' =
    reconcile-Adds semver sv instance' 1 (do_node_pool_upgrade-one_pod semver sv instance')

-- If the health that OpenSearch reports is never quiet, neither green nor yellow without a shard that
-- moves or is being set up, then a run of the upgrade deletes no pod.
pub upgrade-unquiet :
    (semver : Semver) (sv : Services) (instance' : Cluster)
    → ((h : History) (health : Health) → sv.get_health h ≡ ok health → ¬ Quiet health)
    → Adds deletion 0 (reconcile semver sv instance')
upgrade-unquiet semver sv instance' unquiet =
    reconcile-Adds semver sv instance' 0
      (λ pool. Adds-Emits _ 0 (do_node_pool_upgrade-unquiet semver sv instance' unquiet pool))
