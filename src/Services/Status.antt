-- ===== src/Services/Status.antt =====
-- The two helpers that write a status back: what they write.
use opensearch_k8s_operator.Prelude.{◌≡◌, refl, ap, ◌∙◌, Bool, true, Option, none, List, [], String}
use opensearch_k8s_operator.Api.{Error, Cluster, ClusterStatus, ComponentStatus, StatefulSet}
use opensearch_k8s_operator.Exec.{
  Event, read, sts_status_put, status_put, History, World, Result, ok, continue, log, accepted,
  unless, retried, on_conflict,
}
use opensearch_k8s_operator.Exec.Emits.{
  Emits, Emits-pure, Emits-query, Emits-command, Emits-bind, Emits-on_conflict,
}
use opensearch_k8s_operator.Services.{Services}
use opensearch_k8s_operator.Services.Calls.{
  get_stateful_set, create_client, update_status, try_status, update_status_held, try_sts_status,
  update_sts_status,
}

-- The change itself writes nothing.
changed-Emits :
    {P : Event → Type 0} (f : Cluster → List ComponentStatus → Cluster × List ComponentStatus)
    (c : Cluster)
    → Emits {E = Error} P
        (λ (w : World). let (d, held) = f c w.components in (record w { components = held }, ok d))
changed-Emits f c = record { at = λ w. ([], refl, tt) }

module _ {P : Event → Type 0} (reads : (call : String) → P (read call)) (sv : Services) where
  pub get_stateful_set-Emits : (name : String) → Emits P (get_stateful_set sv name)
  get_stateful_set-Emits name = Emits-query _ (λ h. sv.get_stateful_set h name) (reads _)

  pub create_client-Emits : Emits P (create_client sv)
  create_client-Emits = Emits-query _ (λ h. unless (sv.create_client h)) (reads _)

  module _ (puts : (s : ClusterStatus) (b : Bool) → P (status_put s b)) where
    pub update_status_held-Emits :
        (f : Cluster → List ComponentStatus → Cluster × List ComponentStatus)
        → Emits P (update_status_held sv f)
    unfolding update_status_held try_status
    update_status_held-Emits f = Emits-on_conflict 4 (try_status sv f) (
        Emits-bind _ _ (Emits-query "GetOpenSearchCluster" sv.get_cluster (reads _)) (λ c.
          Emits-bind _ _ (changed-Emits f c) (λ d.
            Emits-command (status_put d.status) (λ h. sv.put_status h d.status) (puts d.status))))

  module _ (puts : (s : StatefulSet) (b : Bool) → P (sts_status_put s b)) where
    pub update_sts_status-Emits :
        (name : String) (f : StatefulSet → StatefulSet) → Emits P (update_sts_status sv name f)
    unfolding update_sts_status try_sts_status
    update_sts_status-Emits name f =
        search (Emits-on_conflict, Emits-bind, Emits-query, Emits-pure, Emits-command, reads, puts)

-- The world after a status was written at the first try.
abbrev pub after_note : ClusterStatus → World → World
after_note s w = log (log w (read "GetOpenSearchCluster")) (status_put s true)

module _ (sv : Services) (fresh : History → Cluster)
    (get_cluster : (h : History) → sv.get_cluster h ≡ ok (fresh h))
    (put_status : (h : History) (s : ClusterStatus) → sv.put_status h s ≡ none) where
  -- One try, from the answer of the read on, and from the answer of the write on.
  abbrev put_answer : ClusterStatus → World → Option Error → World × Result Error (Unit {0})
  put_answer s w o = (log w (status_put s (accepted o)), unless o)

  abbrev get_answer :
      (Cluster → Cluster) → World → Result Error Cluster → World × Result Error (Unit {0})
  get_answer f w r =
      continue (log w (read "GetOpenSearchCluster"), r)
        (λ c v. put_answer (f c).status v (sv.put_status v.history (f c).status))

  pub update_status-accepted :
      (f : Cluster → Cluster) (w : World)
      → update_status sv f w ≡ (after_note (f (fresh w.history)).status w, ok tt)
  unfolding update_status_held try_status on_conflict
  update_status-accepted f w =
      let s = (f (fresh w.history)).status in
      let v = log w (read "GetOpenSearchCluster") in
      let m = try_status sv (λ c held. (f c, held)) in
      ap (retried (on_conflict 3 m))
        (ap (get_answer f w) (get_cluster w.history) ∙ ap (put_answer s v) (put_status v.history s))
