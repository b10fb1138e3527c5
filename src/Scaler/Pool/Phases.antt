-- ===== src/Scaler/Pool/Phases.antt =====
-- Which way a run moves the number of replicas of a node pool.
use opensearch_k8s_operator.Prelude.{
  ◌≡◌, sym, ◌∙◌, ◌⊎◌, inl, inr, refl, Bool, not, ◌||◌, true, false, Option, some, List, [], String,
  ◌==◌, eq_iff,
}
use opensearch_k8s_operator.Prelude.Int.{ℤ, pos, ◌+ℤ◌, ◌-ℤ◌, ◌<ℤ◌, ◌==ℤ◌}
use opensearch_k8s_operator.Api.{ClusterStatus, Cluster, NodePool, ComponentStatus, StatefulSet}
use opensearch_k8s_operator.Api.Json.{Fields}
use opensearch_k8s_operator.Exec.{
  Event, read, pod_deleted, sts_applied, sts_removed, sts_status_put, status_put, settings_put,
  written,
}
use opensearch_k8s_operator.Exec.Emits.{
  Emits, Emits-pure, Emits-bind, Emits-failing, Emits-if, Emits-pointer_behind,
}
use opensearch_k8s_operator.Services.{Services}
use opensearch_k8s_operator.Services.Status.{get_stateful_set-Emits, update_status_held-Emits}
use opensearch_k8s_operator.Helpers.Pods.Reads.{ready_replicas-Emits}
use opensearch_k8s_operator.Scaler.Node.{set_replicas}
use opensearch_k8s_operator.Scaler.Node.Writes.{
  exclude_node-Emits, drain_node-Emits, increase_one_node-Emits, decrease_one_node-Emits,
}
use opensearch_k8s_operator.Scaler.Pool.{
  held, scaler_phase, go_on, start, scale_pool, reconcile_node_pool,
}

same : {A : Type 0} (o : Option A) {a b : A} → o ≡ some a → o ≡ some b → a ≡ b
same o p q = some_inj (sym p ∙ q)
  where
    some_inj : {A : Type 0} {a b : A} → some a ≡ some b → a ≡ b
    some_inj e = cc

module _ {P : Event → Type 0} (reads : (call : String) → P (read call))
    (settings : (p t : Fields) (b : Bool) → P (settings_put p t b))
    (statuses : (s : ClusterStatus) (b : Bool) → P (status_put s b)) (sv : Services)
    (instance' : Cluster) where
  go_on-Emits :
      (cs : ComponentStatus) (sts : StatefulSet) (np : NodePool)
      → (cs.status ≡ "Drained"
          → (r : ℤ) → sts.replicas ≡ some r
          → (b : Bool) → P (sts_applied (set_replicas sts (r -ℤ pos 1)) b))
      → Emits P (go_on sv instance' cs sts np)
  unfolding go_on
  go_on-Emits cs sts np down =
      Emits-if (cs.status == "Excluded") _ _
        (λ _.
          Emits-bind _ _
            (Emits-failing true _
              (drain_node-Emits {P = P} reads settings statuses sv cs sts np.component))
            (λ _. Emits-pure true))
        (λ _.
          Emits-if (cs.status == "Drained") _ _
            (λ e.
              decrease_one_node-Emits {P = P} reads settings statuses sv cs sts np.component _
                (down ((eq_iff cs.status "Drained").0 e)))
            (λ _. Emits-pure false))

  start-Emits :
      (cs : ComponentStatus) (sts : StatefulSet) (np : NodePool) (diff : ℤ)
      → ((pos 0 <ℤ diff) ≡ true ⊎ (cs.status ≡ "Drained")
          → (r : ℤ) → sts.replicas ≡ some r
          → (b : Bool) → P (sts_applied (set_replicas sts (r -ℤ pos 1)) b))
      → ((diff <ℤ pos 0) ≡ true
          → (r : ℤ) → sts.replicas ≡ some r
          → (b : Bool) → P (sts_applied (set_replicas sts (r +ℤ pos 1)) b))
      → Emits P (start sv instance' cs sts np diff)
  unfolding start
  start-Emits cs sts np diff down up =
      Emits-bind _ _ (Emits-failing true _ (update_status_held-Emits {P = P} reads sv statuses _))
        (λ _.
          Emits-if (pos 0 <ℤ diff) _ _
            (λ e.
              Emits-if (not instance'.smart_scaler) _ _
                (λ _.
                  decrease_one_node-Emits {P = P} reads settings statuses sv cs sts np.component _
                    (down (inl e)))
                (λ _.
                  Emits-bind _ _
                    (Emits-failing true _
                      (exclude_node-Emits {P = P} reads settings statuses sv cs sts np.component))
                    (λ _. Emits-pure true)))
            (λ _.
              Emits-if (diff <ℤ pos 0) _ _
                (λ e. increase_one_node-Emits {P = P} reads settings statuses sv sts (up e))
                (λ _. go_on-Emits cs sts np (λ d. down (inr d)))))

  pub scale_pool-Emits :
      (np : NodePool) (sts : StatefulSet) (comp : List ComponentStatus)
      → ((r : ℤ)
          → sts.replicas ≡ some r
          → ((pos 0 <ℤ (r -ℤ np.replicas)) ≡ true)
            ⊎ ((scaler_phase comp np.component).0.status ≡ "Drained")
          → (b : Bool) → P (sts_applied (set_replicas sts (r -ℤ pos 1)) b))
      → ((r : ℤ)
          → sts.replicas ≡ some r
          → ((r -ℤ np.replicas) <ℤ pos 0) ≡ true
          → (b : Bool) → P (sts_applied (set_replicas sts (r +ℤ pos 1)) b))
      → Emits P (scale_pool sv instance' np sts comp)
  unfolding scale_pool
  scale_pool-Emits np sts comp down up =
      let cs = (scaler_phase comp np.component).0 in
      Emits-pointer_behind false sts.replicas _ (λ r e.
        Emits-if ((r -ℤ np.replicas) ==ℤ pos 0) _ _
          (λ _.
            Emits-if (scaler_phase comp np.component).1 _ _
              (λ _.
                Emits-bind _ _
                  (Emits-failing false _ (update_status_held-Emits {P = P} reads sv statuses _))
                  (λ _. Emits-pure false))
              (λ _. Emits-pure false))
          (λ _.
            Emits-if
              (not (scaler_phase comp np.component).1
                || cs.status == "Running"
                || cs.status == "Waiting")
              _ _
              (λ _.
                start-Emits cs sts np (r -ℤ np.replicas)
                  (λ h q p. down q p (rw (same sts.replicas e p) at h))
                  (λ h q p. up q p (rw (same sts.replicas e p) at h)))
              (λ _. go_on-Emits cs sts np (λ h q p. down q p (inr h)))))

-- A run on a node pool deletes no pod and no StatefulSet. What it applies is the StatefulSet of the
-- pool with one replica more, where fewer than desired are there, or with one replica less, where
-- more are there or the phase is Drained.
abbrev pub OneStep : StatefulSet → NodePool → String → Event → Type 0
OneStep sts np phase (read c) = Unit {0}
OneStep sts np phase (pod_deleted n b) = ⊥
OneStep sts np phase (sts_applied s b) =
    (s.name ≡ sts.name)
    × ((r : ℤ) × (sts.replicas ≡ some r)
        × (((s.replicas ≡ some (r +ℤ pos 1)) × (((r -ℤ np.replicas) <ℤ pos 0) ≡ true))
            ⊎ ((s.replicas ≡ some (r -ℤ pos 1))
                × (((pos 0 <ℤ (r -ℤ np.replicas)) ≡ true) ⊎ (phase ≡ "Drained")))))
OneStep sts np phase (sts_removed n b) = ⊥
OneStep sts np phase (sts_status_put s b) = ⊥
OneStep sts np phase (status_put s b) = Unit {0}
OneStep sts np phase (settings_put p t b) = Unit {0}
OneStep sts np phase (written x b) = ⊥

-- Whatever the two APIs answer, a run on a node pool deletes no pod and no StatefulSet, and every
-- StatefulSet that it applies is that of the pool with exactly one replica more, which happens only
-- with fewer replicas than desired, or one replica less, which happens only with more replicas than
-- desired or in the phase Drained.
pub scale_pool-OneStep :
    (sv : Services) (instance' : Cluster) (np : NodePool) (sts : StatefulSet)
    (comp : List ComponentStatus)
    → Emits
        (OneStep sts np (scaler_phase comp np.component).0.status)
        (scale_pool sv instance' np sts comp)
scale_pool-OneStep sv instance' np sts comp =
    scale_pool-Emits (λ c. tt) (λ p t b. tt) (λ s b. tt) sv instance' np sts comp
      (λ r e h b. (refl, (r, e, inr (refl, h)))) (λ r e h b. (refl, (r, e, inl (refl, h))))

-- The whole handler, for a predicate that all applied StatefulSets meet.
pub reconcile_node_pool-Emits :
    {P : Event → Type 0} (reads : (call : String) → P (read call))
    (settings : (p t : Fields) (b : Bool) → P (settings_put p t b))
    (statuses : (s : ClusterStatus) (b : Bool) → P (status_put s b))
    (applies : (s : StatefulSet) (b : Bool) → P (sts_applied s b)) (sv : Services)
    (instance' : Cluster) (np : NodePool)
    → Emits P (reconcile_node_pool sv instance' np)
unfolding reconcile_node_pool
reconcile_node_pool-Emits {P} reads settings statuses applies sv instance' np =
    Emits-bind _ _ (Emits-failing false _ (get_stateful_set-Emits {P = P} reads sv _)) (λ found.
      Emits-bind _ _ (Emits-failing false _ (ready_replicas-Emits {P = P} reads sv np)) (λ ready.
        Emits-bind held _ (record { at = λ w. ([], refl, tt) })
          (λ comp.
            scale_pool-Emits {P = P} reads settings statuses sv instance' np _ comp
              (λ r e h b. applies _ b) (λ r e h b. applies _ b))))
