-- ===== src/Scaler/Node/Writes.antt =====
-- What the steps of the scaler may write.
use opensearch_k8s_operator.Prelude.{
  ◌≡◌, refl, Bool, not, true, false, some, [], String, ◌==◌, if◌then◌else◌,
}
use opensearch_k8s_operator.Prelude.Int.{ℤ, pos, ◌+ℤ◌, ◌-ℤ◌}
use opensearch_k8s_operator.Api.{ClusterStatus, Cluster, ComponentStatus, StatefulSet}
use opensearch_k8s_operator.Api.Json.{Fields}
use opensearch_k8s_operator.Exec.{Event, read, sts_applied, status_put, settings_put, pure}
use opensearch_k8s_operator.Exec.Emits.{
  Emits, Emits-pure, Emits-raise, Emits-command, Emits-bind, Emits-attempt, Emits-failing, Emits-if,
  Emits-behind_deref, Emits-pointer_behind,
}
use opensearch_k8s_operator.Services.{Services}
use opensearch_k8s_operator.Services.Calls.{apply_stateful_set, update_status, create_client}
use opensearch_k8s_operator.Services.Status.{create_client-Emits, update_status_held-Emits}
use opensearch_k8s_operator.Helpers.Pods.{replica_host_name}
use opensearch_k8s_operator.Gateway.Writes.{
  append_exclude_node_host-Emits, remove_exclude_node_host-Emits, has_shards_on_node-Emits,
}
use opensearch_k8s_operator.Scaler.Node.{
  set_replicas, target_or, increase_one_node, reset, remove_node, decrease_one_node, exclude_node,
  drain_node, node_not_empty,
}

module _ {P : Event → Type 0} (reads : (call : String) → P (read call))
    (settings : (p t : Fields) (b : Bool) → P (settings_put p t b))
    (statuses : (s : ClusterStatus) (b : Bool) → P (status_put s b)) (sv : Services) where
  pub exclude_node-Emits :
      (cs : ComponentStatus) (sts : StatefulSet) (group : String)
      → Emits P (exclude_node sv cs sts group)
  unfolding exclude_node
  exclude_node-Emits cs sts group =
      Emits-bind (create_client sv) _ (create_client-Emits {P = P} reads sv) (λ _.
        Emits-behind_deref sts.replicas _ (λ r e.
          Emits-bind _ _
            (append_exclude_node_host-Emits {P = P} reads settings sv
              (replica_host_name sts (r -ℤ pos 1)))
            (λ excluded.
              Emits-if excluded _ _ (λ _. update_status_held-Emits {P = P} reads sv statuses _)
                (λ _. update_status_held-Emits {P = P} reads sv statuses _))))

  drained-Emits :
      (empty : Bool) (f : Cluster → Cluster)
      → Emits P (if empty then pure tt else update_status sv f)
  drained-Emits true f = Emits-pure tt
  drained-Emits false f = update_status_held-Emits {P = P} reads sv statuses _

  pub drain_node-Emits :
      (cs : ComponentStatus) (sts : StatefulSet) (group : String)
      → Emits P (drain_node sv cs sts group)
  unfolding drain_node
  drain_node-Emits cs sts group = Emits-behind_deref sts.replicas _ (λ r e.
      Emits-if
        (not (
          target_or (replica_host_name sts (r -ℤ pos 1)) cs.conditions
          == replica_host_name sts (r -ℤ pos 1)))
        _ _
        (λ _.
          Emits-bind _ _ (Emits-attempt _ (update_status_held-Emits {P = P} reads sv statuses _))
            (λ _. Emits-raise _))
        (λ _. Emits-bind (create_client sv) _ (create_client-Emits {P = P} reads sv) (λ _.
          Emits-bind _ _
            (Emits-attempt _ (
              has_shards_on_node-Emits {P = P} reads sv
                (target_or (replica_host_name sts (r -ℤ pos 1)) cs.conditions)))
            (λ answer. drained-Emits (node_not_empty sv answer) _))))

  pub apply_stateful_set-Emits :
      (sts : StatefulSet)
      → ((b : Bool) → P (sts_applied sts b))
      → Emits P (apply_stateful_set sv sts)
  apply_stateful_set-Emits sts h =
      Emits-bind _ _ (Emits-command (sts_applied sts) (λ k. sv.apply_stateful_set k sts) h)
        (λ _. record { at = λ w. ([], refl, tt) })

  pub increase_one_node-Emits :
      (sts : StatefulSet)
      → ((r : ℤ)
          → sts.replicas ≡ some r
          → (b : Bool) → P (sts_applied (set_replicas sts (r +ℤ pos 1)) b))
      → Emits P (increase_one_node sv sts)
  unfolding increase_one_node
  increase_one_node-Emits sts applies = Emits-pointer_behind true sts.replicas _ (λ r e.
      Emits-bind _ _ (Emits-failing true _ (apply_stateful_set-Emits _ (applies r e)))
        (λ _. Emits-pure false))

  reset-Emits :
      (cs : ComponentStatus) (group message : String) → Emits P (reset sv cs group message)
  reset-Emits cs group message =
      Emits-bind _ _
        (Emits-failing true _
          (Emits-attempt _ (update_status_held-Emits {P = P} reads sv statuses _)))
        (λ _. Emits-raise _)

  remove_node-Emits :
      (cs : ComponentStatus) (sts : StatefulSet) (r : ℤ) (last : String) (smart : Bool)
      → ((b : Bool) → P (sts_applied (set_replicas sts r) b))
      → Emits P (remove_node sv cs sts r last smart)
  unfolding remove_node
  remove_node-Emits cs sts r last smart applies =
      Emits-bind _ _ (Emits-failing true _ (apply_stateful_set-Emits (set_replicas sts r) applies))
        (λ _.
          Emits-bind _ _
            (Emits-failing false _ (update_status_held-Emits {P = P} reads sv statuses _))
            (λ _.
              Emits-if (not smart) _ _ (λ _. Emits-pure false)
                (λ _.
                  Emits-bind _ _ (Emits-failing true _ (create_client-Emits {P = P} reads sv)) (λ _.
                    Emits-bind _ _
                      (Emits-failing false _
                        (remove_exclude_node_host-Emits {P = P} reads settings sv last))
                      (λ _. Emits-pure false)))))

  pub decrease_one_node-Emits :
      (cs : ComponentStatus) (sts : StatefulSet) (group : String) (smart : Bool)
      → ((r : ℤ)
          → sts.replicas ≡ some r
          → (b : Bool) → P (sts_applied (set_replicas sts (r -ℤ pos 1)) b))
      → Emits P (decrease_one_node sv cs sts group smart)
  unfolding decrease_one_node
  decrease_one_node-Emits cs sts group smart applies =
      Emits-pointer_behind true sts.replicas _ (λ r e.
        Emits-if
          (target_or (replica_host_name sts (r -ℤ pos 1)) cs.conditions
            == replica_host_name sts (r -ℤ pos 1))
          _ _ (λ _. remove_node-Emits cs sts (r -ℤ pos 1) _ smart (applies r e))
          (λ _. reset-Emits cs group _))
