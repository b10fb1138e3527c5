-- ===== src/Scaler/Run/Removals.antt =====
-- What the removal of old StatefulSets may write.
use opensearch_k8s_operator.Prelude.{
  ◌≡◌, refl, sym, Bool, not, true, false, Option, List, [], ◌∷◌, In, inl, inr, if◌then◌else◌,
  String,
}
use opensearch_k8s_operator.Prelude.Int.{ℤ, pos, ◌==ℤ◌}
use opensearch_k8s_operator.Api.{
  Error, not_found, conflict, panic, api, failed, Cluster, StatefulSet, Outcome,
}
use opensearch_k8s_operator.Exec.{
  Event, read, pod_deleted, sts_applied, sts_status_put, status_put, settings_put, written, World,
  Result, ok, err, History, sts_removed,
}
use opensearch_k8s_operator.Exec.Emits.{
  Emits, Extends, Emits-pure, Emits-command, Emits-bind, Emits-failing, Emits-if,
}
use opensearch_k8s_operator.Services.{Services}
use opensearch_k8s_operator.Services.Calls.{apply_stateful_set, remove_stateful_set}
use opensearch_k8s_operator.Services.Status.{create_client-Emits}
use opensearch_k8s_operator.Helpers.Roles.{sts_in_node_pools}
use opensearch_k8s_operator.Gateway.Writes.{
  append_exclude_node_host-Emits, remove_exclude_node_host-Emits, has_shards_on_node-Emits,
}
use opensearch_k8s_operator.Combined.{CombinedResult, combine}
use opensearch_k8s_operator.Scaler.Node.{set_replicas}
use opensearch_k8s_operator.Scaler.Node.Writes.{apply_stateful_set-Emits}
use opensearch_k8s_operator.Scaler.Run.{
  both_removed, results_of_removal, remove_last_node, remove_stateful_set_gracefully,
  remove_old_stateful_set, remove_old_from,
}

-- No pod is deleted, and only StatefulSets with such names are removed.
abbrev pub Only : (String → Type 0) → Event → Type 0
Only R (read c) = Unit {0}
Only R (pod_deleted n b) = ⊥
Only R (sts_applied s b) = Unit {0}
Only R (sts_removed n b) = R n
Only R (sts_status_put s b) = Unit {0}
Only R (status_put s b) = Unit {0}
Only R (settings_put p t b) = Unit {0}
Only R (written x b) = ⊥

pub Only-map :
    {R S : String → Type 0} → ((n : String) → R n → S n) → (e : Event) → Only R e → Only S e
Only-map f (read c) x = x
Only-map f (pod_deleted n b) x = x
Only-map f (sts_applied s b) x = x
Only-map f (sts_removed n b) x = f n x
Only-map f (sts_status_put s b) x = x
Only-map f (status_put s b) x = x
Only-map f (settings_put p t b) x = x
Only-map f (written x b) y = y

negation_true : (b : Bool) → not b ≡ true → b ≡ false
negation_true true e = sym e
negation_true false e = refl

both_removed-Extends :
    {P : Event → Type 0} (h : History)
    (p : World × Result (Option Outcome × Error) (Option Outcome))
    → Extends P h p.0.history
    → Extends P h (both_removed p).0.history
both_removed-Extends h (w, ok b) x = x
both_removed-Extends h (w, err (b, panic)) x = x
both_removed-Extends h (w, err (b, not_found)) x = x
both_removed-Extends h (w, err (b, conflict)) x = x
both_removed-Extends h (w, err (b, api s)) x = x
both_removed-Extends h (w, err (b, failed s)) x = x

module _ (sv : Services) (instance' : Cluster) (all : List StatefulSet) where
  abbrev pub IsOld : StatefulSet → Type 0
  IsOld sts = (sts_in_node_pools sts instance'.node_pools ≡ false) × In sts all

  -- The name of a StatefulSet of the list that belongs to no node pool.
  abbrev pub NameOfOld : String → Type 0
  NameOfOld n = (s : StatefulSet) × (n ≡ s.name) × IsOld s

  remove_sts-Emits :
      (sts : StatefulSet) → IsOld sts → Emits (Only NameOfOld) (remove_stateful_set sv sts.name)
  remove_sts-Emits sts old =
      Emits-bind _ _
        (Emits-command (sts_removed sts.name) (λ h. sv.remove_stateful_set h sts.name)
          (λ b. (sts, refl, old)))
        (λ _. record { at = λ w. ([], refl, tt) })

  remove_last_node-Emits :
      (sts : StatefulSet) (n : ℤ) (last : String)
      → IsOld sts
      → Emits (Only NameOfOld) (remove_last_node sv instance' sts n last)
  unfolding remove_last_node
  remove_last_node-Emits sts n last old =
      Emits-bind _ _
        (Emits-failing _
          (if n ==ℤ pos 0
            then remove_stateful_set sv sts.name
            else apply_stateful_set sv (set_replicas sts n))
          (Emits-if (n ==ℤ pos 0) _ _ (λ _. remove_sts-Emits sts old)
            (λ _. apply_stateful_set-Emits (λ c. tt) (λ p t b. tt) (λ s b. tt) sv _ (λ b. tt))))
        (λ r.
          Emits-bind _ _
            (Emits-failing _ _ (remove_exclude_node_host-Emits (λ c. tt) (λ p t b. tt) sv last))
            (λ _. Emits-pure r))

  gracefully-Emits :
      (sts : StatefulSet)
      → IsOld sts
      → Emits (Only NameOfOld) (remove_stateful_set_gracefully sv instance' sts)
  unfolding remove_stateful_set_gracefully
  gracefully-Emits sts old =
      Emits-bind _ _ (Emits-failing _ _ (create_client-Emits (λ c. tt) sv)) (λ _.
        Emits-bind _ _
          (Emits-failing _ _ (append_exclude_node_host-Emits (λ c. tt) (λ p t b. tt) sv _))
          (λ _.
            Emits-bind _ _ (Emits-failing _ _ (has_shards_on_node-Emits (λ c. tt) sv _))
              (λ not_empty.
                Emits-if not_empty _ _ (λ _. Emits-pure _)
                  (λ _. remove_last_node-Emits sts _ _ old))))

  remove_old-Emits :
      (sts : StatefulSet)
      → IsOld sts
      → Emits (Only NameOfOld) (remove_old_stateful_set sv instance' sts)
  unfolding remove_old_stateful_set
  remove_old-Emits sts old =
      Emits-if (not instance'.smart_scaler) _ _ (λ _. Emits-failing _ _ (remove_sts-Emits sts old))
        (λ _. gracefully-Emits sts old)

  results_of_removal-Emits :
      (sts : StatefulSet)
      → IsOld sts
      → Emits (Only NameOfOld) (results_of_removal (remove_old_stateful_set sv instance' sts))
  results_of_removal-Emits sts old = record {
    at = λ w.
        both_removed-Extends w.history (remove_old_stateful_set sv instance' sts w)
          ((remove_old-Emits sts old).at w);
  }

  pub remove_old_from-Emits :
      (results : CombinedResult) (list : List StatefulSet)
      → ((s : StatefulSet) → In s list → In s all)
      → Emits (Only NameOfOld) (remove_old_from sv instance' results list)
  unfolding remove_old_from
  remove_old_from-Emits results [] within = Emits-pure results
  remove_old_from-Emits results (sts ∷ list) within =
      let later : (s : StatefulSet) → In s list → In s all = λ s i. within s (inr i) in
      Emits-if (not (sts_in_node_pools sts instance'.node_pools)) _ _
        (λ e.
          Emits-bind (results_of_removal (remove_old_stateful_set sv instance' sts)) _
            (results_of_removal-Emits sts (negation_true _ e, within sts (inl refl)))
            (λ r. record { at = (remove_old_from-Emits (combine results r.0 r.1) list later).at }))
        (λ _. record { at = (remove_old_from-Emits results list later).at })
