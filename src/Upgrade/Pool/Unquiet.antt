-- ===== src/Upgrade/Pool/Unquiet.antt =====
-- A step of the upgrade while the cluster is not ready to lose a node.
use opensearch_k8s_operator.Prelude.{◌≡◌, refl, not, List, String}
use opensearch_k8s_operator.Prelude.Int.{◌<ℤ◌}
use opensearch_k8s_operator.Api.{Error, Cluster, NodePool, Health}
use opensearch_k8s_operator.Exec.{History, Result, ok, err, M, attempt}
use opensearch_k8s_operator.Exec.Emits.{Emits, Emits-bind, Emits-if}
use opensearch_k8s_operator.Exec.Returns.{
  Returns, Returns-pure, Returns-raise, Returns-bind, Returns-behind, Returns-attempt, OfOk,
  Emits-behind,
}
use opensearch_k8s_operator.Exec.Kinds.{deletion}
use opensearch_k8s_operator.Services.{Services}
use opensearch_k8s_operator.Services.Status.{get_stateful_set-Emits}
use opensearch_k8s_operator.Helpers.Roles.{sts_name}
use opensearch_k8s_operator.Helpers.Pods.{replicas_or_one}
use opensearch_k8s_operator.Helpers.Pods.Reads.{ready_replicas-Emits}
use opensearch_k8s_operator.Gateway.Health.{check_cluster_status_for_restart}
use opensearch_k8s_operator.Gateway.Health.Ready.{
  Quiet, negation_false, check_cluster_status_for_restart-unquiet,
}
use opensearch_k8s_operator.Gateway.Writes.{check_cluster_status_for_restart-Emits}
use opensearch_k8s_operator.Util.Writes.{data_nodes_count-Emits}
use opensearch_k8s_operator.Upgrade.Version.{Semver}
use opensearch_k8s_operator.Upgrade.Pool.{
  delete_unsupported_cluster_settings, set_component_conditions, or_condition, guarded,
  do_node_pool_upgrade,
}
use opensearch_k8s_operator.Upgrade.Pool.Deletes.{
  set_component_conditions-Emits, guarded-Emits, unsupported-Emits,
}

module _ (semver : Semver) (sv : Services) (instance' : Cluster) where
  or_condition-Returns :
      {A : Type 0} {Q : A → Type 0} (conditions : List String) (group : String) (r : Result Error A)
      → OfOk Q r
      → Returns Q (or_condition semver sv instance' conditions group r)
  unfolding OfOk
  or_condition-Returns conditions group (ok a) q = Returns-pure a q
  or_condition-Returns conditions group (err e) q =
      Returns-bind (set_component_conditions semver sv instance' conditions group) _
        (λ _. Returns-raise e)

  guarded-Returns :
      {A : Type 0} {Q : A → Type 0} (m : M A) (conditions : List String) (group : String)
      → Returns Q m
      → Returns Q (guarded semver sv instance' m conditions group)
  guarded-Returns m conditions group k =
      Returns-behind (attempt m) _ (Returns-attempt m k) (or_condition-Returns conditions group)

  -- With a health that is never quiet the step deletes no pod.
  pub do_node_pool_upgrade-unquiet :
      (unquiet : (h : History) (health : Health) → sv.get_health h ≡ ok health → ¬ Quiet health)
      (pool : NodePool)
      → Emits (λ e. deletion e ≡ 0) (do_node_pool_upgrade semver sv instance' pool)
  unfolding do_node_pool_upgrade
  do_node_pool_upgrade-unquiet unquiet pool =
      Emits-bind _ _ (get_stateful_set-Emits (λ c. refl) sv (sts_name instance' pool)) (λ found.
        Emits-bind _ _ (ready_replicas-Emits (λ c. refl) sv pool) (λ r.
          Emits-bind _ _ (data_nodes_count-Emits (λ c. refl) sv instance') (λ n.
            Emits-if (r <ℤ replicas_or_one found) _ _
              (λ _. set_component_conditions-Emits semver sv instance' _ _)
              (λ _.
                Emits-bind _ _
                  (guarded-Emits semver sv instance'
                    (delete_unsupported_cluster_settings semver sv instance') _ _
                    (unsupported-Emits semver sv instance'))
                  (λ _.
                    Emits-behind _ _
                      (guarded-Emits semver sv instance'
                        (check_cluster_status_for_restart sv instance'.drain_data_nodes) _ _
                        (check_cluster_status_for_restart-Emits (λ c. refl) (λ p t b. refl) sv _))
                      (guarded-Returns _ _ _
                        (check_cluster_status_for_restart-unquiet sv unquiet _))
                      (λ status no_go.
                        Emits-if (not status.0) _ _
                          (λ _. set_component_conditions-Emits semver sv instance' _ _)
                          (λ e. absurd (no_go (negation_false status.0 e)))))))))
