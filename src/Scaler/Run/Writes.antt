-- ===== src/Scaler/Run/Writes.antt =====
-- What a run of the scaler may delete.
use opensearch_k8s_operator.Prelude.{
  ◌≡◌, refl, sym, ap, ◌∙◌, Bool, not, ◌&&◌, true, false, List, [], ◌∷◌, ◌++◌, append_assoc, In,
  if◌then◌else◌, String,
}
use opensearch_k8s_operator.Prelude.Int.{◌==ℤ◌}
use opensearch_k8s_operator.Api.{
  Error, not_found, conflict, panic, api, failed, Cluster, NodePool, StatefulSet, Outcome,
}
use opensearch_k8s_operator.Exec.{
  Event, read, World, Result, ok, err, History, M, continue, ◌>>=◌, caught, log, attempt, deref,
}
use opensearch_k8s_operator.Exec.Emits.{
  Emits, Extends, Extends-trans, Extends-weaken, Emits-pure, Emits-bind, Emits-attempt, Emits-if,
  Emits-deref, Emits-weaken,
}
use opensearch_k8s_operator.Services.{Services}
use opensearch_k8s_operator.Services.Calls.{get_stateful_set, create_client}
use opensearch_k8s_operator.Services.Status.{get_stateful_set-Emits, create_client-Emits}
use opensearch_k8s_operator.Helpers.Roles.{sts_name, sts_in_node_pools}
use opensearch_k8s_operator.Util.{clean_stale_exclusion_list}
use opensearch_k8s_operator.Util.Writes.{clean_stale_exclusion_list-Emits}
use opensearch_k8s_operator.Combined.{CombinedResult, empty}
use opensearch_k8s_operator.Scaler.Pool.{held, reconcile_node_pool}
use opensearch_k8s_operator.Scaler.Pool.Phases.{reconcile_node_pool-Emits}
use opensearch_k8s_operator.Scaler.Run.{
  exclude_or_drain_in_progress, both, results_of, combine_error, reconcile_pools, node_pools_ready,
  cleanup_listed, cleanup_stateful_sets, finish_pools, reconcile_all, after_cleanup, clean_first,
  reconcile,
}
use opensearch_k8s_operator.Scaler.Run.Removals.{Only, Only-map, remove_old_from-Emits}

-- The removed StatefulSet belongs to none of the pools, and stands in an answer of ListStatefulSets.
-- The call was made after the history `h0`, and the history `final` holds it.
abbrev pub Listed : Services → List NodePool → History → History → String → Type 0
Listed sv pools h0 final n =
    (s : StatefulSet) × (n ≡ s.name)
    × (sts_in_node_pools s pools ≡ false)
    × ((h es fs : History) × (list : List StatefulSet) × (h ≡ es ++ h0)
        × (final ≡ fs ++ (read "ListStatefulSets" ∷ h))
        × (sv.list_stateful_sets h ≡ ok list)
        × In s list)

-- What a run that begins with `h0` and ends with `final` may write.
abbrev pub OnlyOld : Services → List NodePool → History → History → Event → Type 0
OnlyOld sv pools h0 final = Only (Listed sv pools h0 final)

both-Extends :
    {P : Event → Type 0} (h : History) (p : World × Result (Bool × Error) Bool)
    → Extends P h p.0.history
    → Extends P h (both p).0.history
both-Extends h (w, ok b) x = x
both-Extends h (w, err (b, panic)) x = x
both-Extends h (w, err (b, not_found)) x = x
both-Extends h (w, err (b, conflict)) x = x
both-Extends h (w, err (b, api s)) x = x
both-Extends h (w, err (b, failed s)) x = x

module _ (sv : Services) (instance' : Cluster) where
  -- The steps before the list is asked for remove nothing.
  abbrev Safe : Event → Type 0
  Safe = Only (λ n. ⊥)

  results_of-Emits : (np : NodePool) → Emits Safe (results_of (reconcile_node_pool sv instance' np))
  results_of-Emits np = record {
    at = λ w. both-Extends w.history (reconcile_node_pool sv instance' np w) (
        (reconcile_node_pool-Emits (λ c. tt) (λ p t b. tt) (λ s b. tt) (λ s b. tt) sv instance'
            np).at
          w);
  }

  reconcile_pools-Emits :
      (requeue : Bool) (results : CombinedResult) (nps : List NodePool)
      → Emits Safe (reconcile_pools sv instance' requeue results nps)
  unfolding reconcile_pools
  reconcile_pools-Emits requeue results [] = Emits-pure _
  reconcile_pools-Emits requeue results (np ∷ nps) =
      Emits-bind (results_of (reconcile_node_pool sv instance' np)) _ (results_of-Emits np)
        (λ r. record { at = (reconcile_pools-Emits r.0 (combine_error results r) nps).at })

  node_pools_ready-Emits : (nps : List NodePool) → Emits Safe (node_pools_ready sv instance' nps)
  unfolding node_pools_ready
  node_pools_ready-Emits [] = Emits-pure true
  node_pools_ready-Emits (np ∷ nps) =
      Emits-bind (get_stateful_set sv (sts_name instance' np)) _
        (get_stateful_set-Emits (λ c. tt) sv _)
        (λ sts. Emits-bind (deref sts.replicas) _ (Emits-deref sts.replicas) (λ r.
          Emits-if (not (sts.available_replicas ==ℤ r)) _ _ (λ _. Emits-pure false)
            (λ _. record { at = (node_pools_ready-Emits nps).at })))

module _ (sv : Services) (instance' : Cluster) (h0 : History) where
  -- A run from a history that extends `h0`, up to its own end.
  record Clean {A : Type 0} (m : M A) : Type 0 where
    at :
        (w : World) (es : History)
        → w.history ≡ es ++ h0
        → Extends (OnlyOld sv instance'.node_pools h0 (m w).0.history) w.history (m w).0.history

  Safe-Only : (R : String → Type 0) (e : Event) → Only (λ n. ⊥) e → Only R e
  Safe-Only R = Only-map (λ n x. absurd x)

  Emits-Clean : {A : Type 0} (m : M A) → Emits (Only (λ n. ⊥)) m → Clean m
  Emits-Clean m k = record { at = λ w es e. (Emits-weaken m (Safe-Only _) k).at w }

  continue-Clean :
      {A B : Type 0} (h : History) (p : World × Result Error A) (f : A → M B) (es : History)
      → h ≡ es ++ h0
      → Extends (Only (λ n. ⊥)) h p.0.history
      → ((a : A) → Clean (f a))
      → Extends
          (OnlyOld sv instance'.node_pools h0 (continue p f).0.history)
          h
          (continue p f).0.history
  continue-Clean h (w, ok a) f es e (fs, q, u) k =
      let joined : w.history ≡ (fs ++ es) ++ h0 =
        q ∙ ap (λ x. fs ++ x) e ∙ sym (append_assoc fs es h0) in
      Extends-trans (Extends-weaken (Safe-Only _) (fs, q, u)) ((k a).at w (fs ++ es) joined)
  continue-Clean h (w, err x) f es e y k = Extends-weaken (Safe-Only _) y

  Clean-bind :
      {A B : Type 0} (m : M A) (f : A → M B)
      → Emits (Only (λ n. ⊥)) m
      → ((a : A) → Clean (f a))
      → Clean (m >>= f)
  Clean-bind m f km kf = record {
    at = λ w es e. continue-Clean w.history (m w) f es e (km.at w) kf;
  }

  Clean-if : {A : Type 0} (b : Bool) (m n : M A) → Clean m → Clean n → Clean (if b then m else n)
  Clean-if true m n km kn = km
  Clean-if false m n km kn = kn

  -- The end of a run, from the answer of ListStatefulSets on.
  abbrev listed_by :
      CombinedResult → World → Result Error (List StatefulSet) → World × Result Error CombinedResult
  listed_by results w r =
      continue (caught (log w (read "ListStatefulSets"), r)) (cleanup_listed sv instance' results)

  listed_by-Extends :
      (results : CombinedResult) (w : World) (es : History) (r : Result Error (List StatefulSet))
      → w.history ≡ es ++ h0
      → sv.list_stateful_sets w.history ≡ r
      → Extends
          (OnlyOld sv instance'.node_pools h0 (listed_by results w r).0.history)
          w.history
          (listed_by results w r).0.history
  listed_by-Extends results w es (ok list) e answer =
      let h : History = read "ListStatefulSets" ∷ w.history in
      let x =
        (remove_old_from-Emits sv instance' list results list (λ s i. i)).at
          (log w (read "ListStatefulSets")) in
      let final = (listed_by results w (ok list)).0.history in
      Extends-trans {b = h} (read "ListStatefulSets" ∷ [], refl, (tt, tt))
        (Extends-weaken {Q = OnlyOld sv instance'.node_pools h0 final}
          (Only-map (λ n (s, named, (outside, i)).
            (s, named, outside, (w.history, es, x.0, list, e, x.1, answer, i))))
          x)
  listed_by-Extends results w es (err panic) e answer =
      (read "ListStatefulSets" ∷ [], refl, (tt, tt))
  listed_by-Extends results w es (err not_found) e answer =
      (read "ListStatefulSets" ∷ [], refl, (tt, tt))
  listed_by-Extends results w es (err conflict) e answer =
      (read "ListStatefulSets" ∷ [], refl, (tt, tt))
  listed_by-Extends results w es (err (api s)) e answer =
      (read "ListStatefulSets" ∷ [], refl, (tt, tt))
  listed_by-Extends results w es (err (failed s)) e answer =
      (read "ListStatefulSets" ∷ [], refl, (tt, tt))

  cleanup-Clean : (results : CombinedResult) → Clean (cleanup_stateful_sets sv instance' results)
  unfolding cleanup_stateful_sets
  cleanup-Clean results = record {
    at = λ w es e. listed_by-Extends results w es (sv.list_stateful_sets w.history) e refl;
  }

  finish_pools-Clean :
      (results : CombinedResult) (r : Result Error Bool)
      → Clean (finish_pools sv instance' results r)
  finish_pools-Clean results (err e) = Emits-Clean _ (Emits-pure _)
  finish_pools-Clean results (ok false) = Emits-Clean _ (Emits-pure _)
  finish_pools-Clean results (ok true) = cleanup-Clean results

  reconcile_all-Clean : Clean (reconcile_all sv instance')
  unfolding reconcile_all
  reconcile_all-Clean =
      Clean-bind (reconcile_pools sv instance' false empty instance'.node_pools) _
        (reconcile_pools-Emits sv instance' false empty _)
        (λ results.
          Clean-bind (attempt (node_pools_ready sv instance' instance'.node_pools)) _
            (Emits-attempt _ (node_pools_ready-Emits sv instance' _)) (finish_pools-Clean results))

  after_cleanup-Clean : (res : Outcome) → Clean (after_cleanup sv instance' res)
  after_cleanup-Clean res =
      Clean-if res.requeue _ _ (Emits-Clean _ (Emits-pure _)) reconcile_all-Clean

  clean_first-Clean : (r : Result Error (Unit {0})) → Clean (clean_first sv instance' r)
  clean_first-Clean (err e) = reconcile_all-Clean
  clean_first-Clean (ok u) =
      Clean-bind (clean_stale_exclusion_list sv instance') _
        (clean_stale_exclusion_list-Emits (λ c. tt) (λ p t b. tt) sv instance') after_cleanup-Clean

  reconcile-Clean : Clean (reconcile sv instance')
  unfolding reconcile
  reconcile-Clean =
      Clean-bind held _ (record { at = λ w. ([], refl, tt) })
        (λ comp.
          Clean-if (instance'.smart_scaler && not (exclude_or_drain_in_progress comp)) _ _
            (Clean-bind (attempt (create_client sv)) _
              (Emits-attempt _ (create_client-Emits (λ c. tt) sv)) clean_first-Clean)
            reconcile_all-Clean)

-- Whatever the two APIs answer, a run of the scaler deletes no pod, and each StatefulSet that it
-- removes was in an answer of ListStatefulSets within the same run and belongs to none of the node
-- pools of the cluster.
pub reconcile-OnlyOld :
    (sv : Services) (instance' : Cluster) (w : World)
    → Extends
        (OnlyOld sv instance'.node_pools w.history (reconcile sv instance' w).0.history)
        w.history
        (reconcile sv instance' w).0.history
reconcile-OnlyOld sv instance' w = (reconcile-Clean sv instance' w.history).at w [] refl
