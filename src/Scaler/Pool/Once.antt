-- ===== src/Scaler/Pool/Once.antt =====
-- How often a run changes the StatefulSet of a node pool.
use opensearch_k8s_operator.Prelude.{
  ◌≡◌, refl, Bool, not, ◌||◌, true, false, List, [], String, ◌==◌, if◌then◌else◌, arith,
}
use opensearch_k8s_operator.Prelude.Int.{ℤ, pos, ◌+ℤ◌, ◌-ℤ◌, ◌<ℤ◌, ◌==ℤ◌}
use opensearch_k8s_operator.Api.{Cluster, NodePool, ComponentStatus, StatefulSet}
use opensearch_k8s_operator.Exec.{sts_applied, failing, pure, ◌>>◌}
use opensearch_k8s_operator.Exec.Emits.{
  Emits, Emits-pure, Emits-raise, Emits-bind, Emits-failing, Emits-attempt, Emits-if, Emits-deref,
}
use opensearch_k8s_operator.Exec.Adds.{
  Adds, Adds-Emits, Adds-command, Adds-behind, Adds-before, Adds-failing, Adds-if,
}
use opensearch_k8s_operator.Exec.Kinds.{application}
use opensearch_k8s_operator.Services.{Services}
use opensearch_k8s_operator.Services.Calls.{apply_stateful_set, create_client}
use opensearch_k8s_operator.Services.Status.{
  get_stateful_set-Emits, create_client-Emits, update_status_held-Emits,
}
use opensearch_k8s_operator.Helpers.Pods.{replica_host_name}
use opensearch_k8s_operator.Helpers.Pods.Reads.{ready_replicas-Emits}
use opensearch_k8s_operator.Gateway.Exclusion.{remove_exclude_node_host}
use opensearch_k8s_operator.Gateway.Writes.{remove_exclude_node_host-Emits}
use opensearch_k8s_operator.Scaler.Node.{
  set_replicas, target_or, increase_one_node, reset, remove_node, decrease_one_node,
}
use opensearch_k8s_operator.Scaler.Node.Writes.{exclude_node-Emits, drain_node-Emits}
use opensearch_k8s_operator.Scaler.Pool.{
  held, scaler_phase, go_on, start, scale_pool, reconcile_node_pool,
}

module _ (sv : Services) where
  apply-Adds : (sts : StatefulSet) → Adds application 1 (apply_stateful_set sv sts)
  apply-Adds sts =
      Adds-before 1 _ _
        (Adds-command (sts_applied sts) (λ h. sv.apply_stateful_set h sts) 1 (λ b. omega arith))
        (λ _. record { at = λ w. ([], refl, tt) })

  increase_one_node-Adds : (sts : StatefulSet) → Adds application 1 (increase_one_node sv sts)
  unfolding increase_one_node
  increase_one_node-Adds sts =
      Adds-behind 1 _ _ (Emits-failing true _ (Emits-deref sts.replicas)) (λ r.
        Adds-before 1 _ _ (Adds-failing 1 true _ (apply-Adds (set_replicas sts (r +ℤ pos 1))))
          (λ _. Emits-pure false))

  after_removal-Emits :
      (smart : Bool) (last : String)
      → Emits
          (λ e. application e ≡ 0)
          (if not smart then pure false else (do
            failing true (create_client sv)
            failing false (remove_exclude_node_host sv last)
            pure false))
  after_removal-Emits smart last =
      Emits-if (not smart) _ _ (λ _. Emits-pure false)
        (λ _. Emits-bind _ _ (Emits-failing true _ (create_client-Emits (λ c. refl) sv)) (λ _.
          Emits-bind _ _
            (Emits-failing false _
              (remove_exclude_node_host-Emits (λ c. refl) (λ p t b. refl) sv last))
            (λ _. Emits-pure false)))

  remove_node-Adds :
      (cs : ComponentStatus) (sts : StatefulSet) (r : ℤ) (last : String) (smart : Bool)
      → Adds application 1 (remove_node sv cs sts r last smart)
  unfolding remove_node
  remove_node-Adds cs sts r last smart =
      Adds-before 1 _ _ (Adds-failing 1 true _ (apply-Adds (set_replicas sts r))) (λ _.
        Emits-bind _ _
          (Emits-failing false _ (update_status_held-Emits (λ c. refl) sv (λ s b. refl) _))
          (λ _. after_removal-Emits smart last))

  reset-Emits :
      (cs : ComponentStatus) (group message : String)
      → Emits (λ e. application e ≡ 0) (reset sv cs group message)
  reset-Emits cs group message =
      Emits-bind _ _
        (Emits-failing true _
          (Emits-attempt _ (update_status_held-Emits (λ c. refl) sv (λ s b. refl) _)))
        (λ _. Emits-raise _)

  decrease_one_node-Adds :
      (cs : ComponentStatus) (sts : StatefulSet) (group : String) (smart : Bool)
      → Adds application 1 (decrease_one_node sv cs sts group smart)
  unfolding decrease_one_node
  decrease_one_node-Adds cs sts group smart =
      Adds-behind 1 _ _ (Emits-failing true _ (Emits-deref sts.replicas)) (λ r.
        Adds-if 1
          (target_or (replica_host_name sts (r -ℤ pos 1)) cs.conditions
            == replica_host_name sts (r -ℤ pos 1))
          _ _ (remove_node-Adds cs sts (r -ℤ pos 1) _ smart)
          (Adds-Emits _ 1 (reset-Emits cs group _)))

  module _ (instance' : Cluster) where
    go_on-Adds :
        (cs : ComponentStatus) (sts : StatefulSet) (np : NodePool)
        → Adds application 1 (go_on sv instance' cs sts np)
    unfolding go_on
    go_on-Adds cs sts np =
        Adds-if 1 (cs.status == "Excluded") _ _
          (Adds-Emits _ 1 (
            Emits-bind _ _
              (Emits-failing true _
                (drain_node-Emits (λ c. refl) (λ p t b. refl) (λ s b. refl) sv cs sts np.component))
              (λ _. Emits-pure true)))
          (Adds-if 1 (cs.status == "Drained") _ _ (decrease_one_node-Adds cs sts np.component _)
            (Adds-Emits _ 1 (Emits-pure false)))

    start-Adds :
        (cs : ComponentStatus) (sts : StatefulSet) (np : NodePool) (diff : ℤ)
        → Adds application 1 (start sv instance' cs sts np diff)
    unfolding start
    start-Adds cs sts np diff =
        Adds-behind 1 _ _
          (Emits-failing true _ (update_status_held-Emits (λ c. refl) sv (λ s b. refl) _))
          (λ _.
            Adds-if 1 (pos 0 <ℤ diff) _ _
              (Adds-if 1 (not instance'.smart_scaler) _ _
                (decrease_one_node-Adds cs sts np.component _)
                (Adds-Emits _ 1 (
                  Emits-bind _ _
                    (Emits-failing true _ (
                      exclude_node-Emits (λ c. refl) (λ p t b. refl) (λ s b. refl) sv cs sts
                        np.component))
                    (λ _. Emits-pure true))))
              (Adds-if 1 (diff <ℤ pos 0) _ _ (increase_one_node-Adds sts) (go_on-Adds cs sts np)))

    scale_pool-Adds :
        (np : NodePool) (sts : StatefulSet) (comp : List ComponentStatus)
        → Adds application 1 (scale_pool sv instance' np sts comp)
    unfolding scale_pool
    scale_pool-Adds np sts comp =
        let cs = (scaler_phase comp np.component).0 in
        Adds-behind 1 _ _ (Emits-failing false _ (Emits-deref sts.replicas)) (λ r.
          Adds-if 1 ((r -ℤ np.replicas) ==ℤ pos 0) _ _
            (Adds-Emits _ 1 (
              Emits-if (scaler_phase comp np.component).1 _ _
                (λ _.
                  Emits-bind _ _
                    (Emits-failing false _
                      (update_status_held-Emits (λ c. refl) sv (λ s b. refl) _))
                    (λ _. Emits-pure false))
                (λ _. Emits-pure false)))
            (Adds-if 1
              (not (scaler_phase comp np.component).1
                || cs.status == "Running"
                || cs.status == "Waiting")
              _ _ (start-Adds cs sts np (r -ℤ np.replicas)) (go_on-Adds cs sts np)))

-- A run on a node pool applies at most one StatefulSet, whatever the two APIs answer, so it moves
-- the pool by at most one node.
pub reconcile_node_pool-one_node :
    (sv : Services) (instance' : Cluster) (np : NodePool)
    → Adds application 1 (reconcile_node_pool sv instance' np)
unfolding reconcile_node_pool
reconcile_node_pool-one_node sv instance' np =
    Adds-behind 1 _ _ (Emits-failing false _ (get_stateful_set-Emits (λ c. refl) sv _)) (λ found.
      Adds-behind 1 _ _ (Emits-failing false _ (ready_replicas-Emits (λ c. refl) sv np)) (λ ready.
        Adds-behind 1 held _ (record { at = λ w. ([], refl, tt) })
          (λ comp. scale_pool-Adds sv instance' np _ comp)))
