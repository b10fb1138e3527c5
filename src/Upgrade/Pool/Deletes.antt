-- ===== src/Upgrade/Pool/Deletes.antt =====
-- How many pods a step of the upgrade deletes.
use opensearch_k8s_operator.Prelude.{
  ℕ, zero, suc, ◌≡◌, refl, not, List, [], ◌∷◌, String, if◌then◌else◌, arith,
}
use opensearch_k8s_operator.Prelude.Int.{ℤ, ◌==ℤ◌, ◌<ℤ◌}
use opensearch_k8s_operator.Api.{Error, Cluster, NodePool, StatefulSet}
use opensearch_k8s_operator.Api.Json.{Fields, end, field}
use opensearch_k8s_operator.Exec.{
  Event, read, status_put, World, History, query, pod_deleted, settings_put, Result, ok, err, M,
  attempt, pure, ◌>>◌, ◌>>=◌,
}
use opensearch_k8s_operator.Exec.Emits.{
  Emits, Extends, Extends-trans, retried-Extends, Emits-query, Emits-pure, Emits-raise,
  Emits-command, Emits-bind, Emits-attempt, Emits-if,
}
use opensearch_k8s_operator.Exec.Adds.{
  Adds, Adds-Emits, Adds-command, Adds-behind, Adds-before, Adds-attempt, Adds-if,
}
use opensearch_k8s_operator.Exec.Kinds.{deletion}
use opensearch_k8s_operator.Services.{Services}
use opensearch_k8s_operator.Services.Calls.{delete_pod}
use opensearch_k8s_operator.Services.Status.{get_stateful_set-Emits, update_status_held-Emits}
use opensearch_k8s_operator.Scaler.Node.{with_components}
use opensearch_k8s_operator.Helpers.Roles.{sts_name}
use opensearch_k8s_operator.Helpers.Pods.{replicas_or_one, working_pod_for_rolling_restart}
use opensearch_k8s_operator.Helpers.Pods.Reads.{ready_replicas-Emits, working_pod-Emits}
use opensearch_k8s_operator.Gateway.Exclusion.{remove_exclude_node_host}
use opensearch_k8s_operator.Gateway.Health.{
  check_cluster_status_for_restart, reactivate_shard_allocation,
}
use opensearch_k8s_operator.Gateway.Prepare.{prepare_pod_for_delete}
use opensearch_k8s_operator.Gateway.Writes.{
  check_cluster_status_for_restart-Emits, reactivate_shard_allocation-Emits,
  prepare_pod_for_delete-Emits, remove_exclude_node_host-Emits,
}
use opensearch_k8s_operator.Util.Writes.{data_nodes_count-Emits}
use opensearch_k8s_operator.Upgrade.Version.{Semver}
use opensearch_k8s_operator.Upgrade.Pool.{
  determine_unsupported_cluster_settings, delete_settings, delete_unsupported_cluster_settings,
  conditions_try, put_cluster, put_conditions, carried, write_conditions, set_component_conditions,
  or_condition, guarded, delete_working_pod, finish_pool, do_node_pool_upgrade,
}

abbrev NoDeletion : Event → Type 0
NoDeletion e = deletion e ≡ 0

module _ (semver : Semver) (sv : Services) (instance' : Cluster) where
  put_cluster-Emits : (c : Cluster) → Emits NoDeletion (put_cluster semver sv instance' c)
  put_cluster-Emits c =
      Emits-command (status_put c.status) (λ h. sv.put_status h c.status) (λ b. refl)

  conditions_try-Extends :
      (again : List String → M (Unit {0})) (conditions : List String) (group : String) (h : History)
      (p : World × Result Error Cluster)
      → ((cs : List String) → Emits NoDeletion (again cs))
      → Extends NoDeletion h p.0.history
      → Extends NoDeletion h (conditions_try semver sv instance' again conditions group p).0.history
  conditions_try-Extends again conditions group h (w, ok c) k x =
      let d = with_components (put_conditions conditions group) c in
      retried-Extends (again (carried conditions group c.status.components_status)) h
        (put_cluster semver sv instance' d w) (k _) (Extends-trans x ((put_cluster-Emits d).at w))
  conditions_try-Extends again conditions group h (w, err e) k x =
      retried-Extends (again conditions) h (w, err e) (k conditions) x

  write_conditions-Emits :
      (n : ℕ) (conditions : List String) (group : String)
      → Emits NoDeletion (write_conditions semver sv instance' n conditions group)
  unfolding write_conditions
  write_conditions-Emits zero conditions group = record {
    at =
        (Emits-bind (query "GetOpenSearchCluster" sv.get_cluster)
          (λ c.
            put_cluster semver sv instance' (with_components (put_conditions conditions group) c))
          (Emits-query "GetOpenSearchCluster" sv.get_cluster refl)
          (λ c. put_cluster-Emits (with_components (put_conditions conditions group) c))).at;
  }
  write_conditions-Emits (suc n) conditions group = record {
    at = λ w.
        conditions_try-Extends (λ cs v. write_conditions semver sv instance' n cs group v)
          conditions group w.history (query "GetOpenSearchCluster" sv.get_cluster w)
          (λ cs. record { at = (write_conditions-Emits n cs group).at })
          (read "GetOpenSearchCluster" ∷ [], refl, (refl, tt));
  }

  pub set_component_conditions-Emits :
      (conditions : List String) (group : String)
      → Emits (λ e. deletion e ≡ 0) (set_component_conditions semver sv instance' conditions group)
  unfolding set_component_conditions
  set_component_conditions-Emits conditions group =
      Emits-bind _ _ (Emits-attempt _ (write_conditions-Emits 4 conditions group))
        (λ _. Emits-pure tt)

  pub or_condition-Emits :
      {A : Type 0} (conditions : List String) (group : String) (r : Result Error A)
      → Emits (λ e. deletion e ≡ 0) (or_condition semver sv instance' conditions group r)
  or_condition-Emits conditions group (ok a) = Emits-pure a
  or_condition-Emits conditions group (err e) =
      Emits-bind (set_component_conditions semver sv instance' conditions group) _
        (set_component_conditions-Emits conditions group) (λ _. Emits-raise e)

  pub guarded-Emits :
      {A : Type 0} (m : M A) (conditions : List String) (group : String)
      → Emits (λ e. deletion e ≡ 0) m
      → Emits (λ e. deletion e ≡ 0) (guarded semver sv instance' m conditions group)
  guarded-Emits m conditions group k =
      Emits-bind (attempt m) _ (Emits-attempt m k) (or_condition-Emits conditions group)

  guarded-Adds :
      {A : Type 0} (n : ℕ) (m : M A) (conditions : List String) (group : String)
      → Adds deletion n m
      → Adds deletion n (guarded semver sv instance' m conditions group)
  guarded-Adds n m conditions group k =
      Adds-before n (attempt m) _ (Adds-attempt n m k) (or_condition-Emits conditions group)

  delete_settings-Emits :
      (r : Result Error Fields)
      → Emits (λ e. deletion e ≡ 0) (delete_settings semver sv instance' r)
  delete_settings-Emits (err e) = Emits-raise e
  delete_settings-Emits (ok end) = Emits-pure tt
  delete_settings-Emits (ok (field k v fs)) =
      Emits-command (settings_put (field k v fs) (field k v fs))
        (λ h. sv.put_cluster_settings h (field k v fs) (field k v fs)) (λ b. refl)

  pub unsupported-Emits :
      Emits (λ e. deletion e ≡ 0) (delete_unsupported_cluster_settings semver sv instance')
  unfolding delete_unsupported_cluster_settings
  unsupported-Emits =
      delete_settings-Emits (determine_unsupported_cluster_settings semver instance'.version)

  pub finish_pool-Emits :
      (pool : NodePool) → Emits (λ e. deletion e ≡ 0) (finish_pool semver sv instance' pool)
  unfolding finish_pool
  finish_pool-Emits pool =
      Emits-bind (reactivate_shard_allocation sv) _
        (reactivate_shard_allocation-Emits (λ c. refl) (λ p t b. refl) sv)
        (λ _. update_status_held-Emits (λ c. refl) sv (λ s b. refl) _)

  after_deletion-Emits :
      (name group : String) (conditions : List String)
      → Emits
          (λ e. deletion e ≡ 0)
          (set_component_conditions semver sv instance' conditions group
            >> (if instance'.drain_data_nodes
                then (remove_exclude_node_host sv name >>= λ _. pure tt)
                else pure tt))
  after_deletion-Emits name group conditions =
      Emits-bind (set_component_conditions semver sv instance' conditions group) _
        (set_component_conditions-Emits conditions group)
        (λ _.
          Emits-if instance'.drain_data_nodes _ _
            (λ _.
              Emits-bind (remove_exclude_node_host sv name) _
                (remove_exclude_node_host-Emits (λ c. refl) (λ p t b. refl) sv name)
                (λ _. Emits-pure tt))
            (λ _. Emits-pure tt))

  delete_working_pod-Adds :
      (sts : StatefulSet) (pool : NodePool) (n : ℤ)
      → Adds deletion 1 (delete_working_pod semver sv instance' sts pool n)
  unfolding delete_working_pod
  delete_working_pod-Adds sts pool n =
      Adds-behind 1 _ _
        (guarded-Emits (working_pod_for_rolling_restart sv sts) _ _
          (working_pod-Emits (λ c. refl) sv sts))
        (λ name.
          Adds-behind 1 _ _
            (guarded-Emits (prepare_pod_for_delete sv name instance'.drain_data_nodes n) _ _
              (prepare_pod_for_delete-Emits (λ c. refl) (λ p t b. refl) sv name _ n))
            (λ ready.
              Adds-if 1 (not ready) _ _ (Adds-Emits _ 1 (set_component_conditions-Emits _ _)) (
                Adds-before 1 _ _
                  (guarded-Adds 1 (delete_pod sv name) _ _ (
                    Adds-command (pod_deleted name) (λ h. sv.delete_pod h name) 1
                      (λ b. omega arith)))
                  (λ _. after_deletion-Emits name pool.component _))))

  -- One step of the upgrade of a node pool deletes at most one pod, whatever Kubernetes and
  -- OpenSearch answer at each call.
  pub do_node_pool_upgrade-one_pod :
      (pool : NodePool) → Adds deletion 1 (do_node_pool_upgrade semver sv instance' pool)
  unfolding do_node_pool_upgrade
  do_node_pool_upgrade-one_pod pool =
      Adds-behind 1 _ _ (get_stateful_set-Emits (λ c. refl) sv (sts_name instance' pool)) (λ found.
        Adds-behind 1 _ _ (ready_replicas-Emits (λ c. refl) sv pool) (λ r.
          Adds-behind 1 _ _ (data_nodes_count-Emits (λ c. refl) sv instance') (λ n.
            Adds-if 1 (r <ℤ replicas_or_one found) _ _
              (Adds-Emits _ 1 (set_component_conditions-Emits _ _))
              (Adds-behind 1 _ _
                (guarded-Emits (delete_unsupported_cluster_settings semver sv instance') _ _
                  unsupported-Emits)
                (λ _.
                  Adds-behind 1 _ _
                    (guarded-Emits (check_cluster_status_for_restart sv instance'.drain_data_nodes)
                      _ _ (check_cluster_status_for_restart-Emits (λ c. refl) (λ p t b. refl) sv _))
                    (λ status.
                      Adds-if 1 (not status.0) _ _
                        (Adds-Emits _ 1 (set_component_conditions-Emits _ _))
                        (Adds-if 1 (found.updated_replicas ==ℤ replicas_or_one found) _ _
                          (Adds-Emits _ 1 (finish_pool-Emits pool))
                          (delete_working_pod-Adds (record found { ready_replicas = r }) pool
                            n))))))))
