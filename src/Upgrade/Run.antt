-- ===== src/Upgrade/Run.antt =====
-- Reconcile of the upgrade.
pub mod Deletes
pub mod Finish
use opensearch_k8s_operator.Prelude.{
  Bool, true, false, not, Option, none, some, List, [], ◌∷◌, ◌++◌, String, ◌==◌, if◌then◌else◌,
}
use opensearch_k8s_operator.Api.{Error, ComponentStatus, ClusterStatus, Cluster, NodePool, Outcome}
use opensearch_k8s_operator.Exec.{Exec, Result, ok, err, pure, raise, failing, lift, ◌>>=◌, ◌>>◌}
use opensearch_k8s_operator.Services.{Services}
use opensearch_k8s_operator.Services.Calls.{update_status, create_client}
use opensearch_k8s_operator.Helpers.Status.{status_of, remove_it}
use opensearch_k8s_operator.Util.{done, requeue_in, clean_stale_exclusion_list}
use opensearch_k8s_operator.Scaler.Node.{with_components}
use opensearch_k8s_operator.Scaler.Pool.{held}
use opensearch_k8s_operator.Upgrade.Version.{Semver, validate_upgrade}
use opensearch_k8s_operator.Upgrade.Pick.{find_next_node_pool_for_upgrade, upgrade_status}
use opensearch_k8s_operator.Upgrade.Pool.{upgrader_status, do_node_pool_upgrade}

-- `(ctrl.Result, error)`
abbrev pub Reconcile : Type 0
Reconcile = Exec (Outcome × Error) Outcome

abbrev pub set_phase : String → Cluster → Cluster
set_phase phase c = let status = c.status in record c { status = record status { phase = phase } }

-- The statuses of the upgrade are taken away, for each pool of the fresh object.
unfoldable pub drop_statuses : List NodePool → List ComponentStatus → List ComponentStatus
drop_statuses [] statuses = statuses
drop_statuses (np ∷ nps) statuses =
    let (current_status, found) = upgrade_status statuses np.component in
    drop_statuses nps (if found then remove_it current_status statuses else statuses)

unfoldable pub finished : Cluster → Cluster
finished c =
    let status = c.status in
    record c {
      status = record status {
        version = c.version;
        phase = "RUNNING";
        components_status = drop_statuses c.node_pools status.components_status;
      };
    }

module _ (semver : Semver) (sv : Services) (instance' : Cluster) where
  -- The switch on the status of the chosen pool.
  abbrev pub work_on : Option (NodePool × String) → Reconcile
  work_on none = do failing done (update_status sv finished); pure done
  work_on (some (pool, status)) =
      if status == "Pending"
      then (do
        failing (requeue_in 15) (
            update_status sv (
              with_components
                (λ statuses. statuses ++ (upgrader_status "Upgrading" pool.component [] ∷ []))))
        pure (requeue_in 15))
      else (do
        failing (requeue_in 30) (do_node_pool_upgrade semver sv instance' pool)
        pure (requeue_in 30))

  unfoldable pub upgrade_pools : Reconcile
  upgrade_pools = do
    components ← held
    work_on (find_next_node_pool_for_upgrade components instance'.node_pools)

  unfoldable pub clean_then_upgrade : Reconcile
  clean_then_upgrade =
      if instance'.drain_data_nodes
      then (do
        res ← failing done (clean_stale_exclusion_list sv instance')
        if res.requeue then pure res else upgrade_pools)
      else upgrade_pools

  unfoldable pub reconcile : Reconcile
  reconcile =
      if instance'.version == instance'.status.version
      then (if instance'.status.phase == "UPGRADING"
          then (do failing done (update_status sv (set_phase "RUNNING")); pure done)
          else pure done)
      else if not instance'.status.initialized
      then pure (requeue_in 10)
      else (do
        failing done (lift (validate_upgrade semver instance'.status.version instance'.version))
        failing done (
            if not (instance'.status.phase == "UPGRADING")
            then update_status sv (set_phase "UPGRADING")
            else pure tt)
        failing done (create_client sv)
        clean_then_upgrade)
