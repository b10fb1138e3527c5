-- ===== src/Objects/Managed/Ensures.antt =====
-- A whole run of the reconciler of roles, tenants and action groups, against the specification of
-- Objects/Managed/Stored.antt.
use opensearch_k8s_operator.Prelude.{
  ◌≡◌, refl, ◌∙◌, Bool, true, false, ◌==◌, eq_refl, none, some, ◌∷◌, ap, String, if◌then◌else◌,
}
use opensearch_k8s_operator.Api.{Cluster}
use opensearch_k8s_operator.Api.Objects.{Object}
use opensearch_k8s_operator.Exec.{
  read, History, World, log, Result, ok, err, M, continue, pure, attempt, ◌>>◌,
}
use opensearch_k8s_operator.Exec.Emits.{Emits, Emits-pure, Emits-bind, Emits-attempt, Emits-if}
use opensearch_k8s_operator.Objects.{ObjectServices, update_object_status}
use opensearch_k8s_operator.Objects.Finish.{Finish, settled}
use opensearch_k8s_operator.Objects.Statuses.{update_object_status-Emits}
use opensearch_k8s_operator.Objects.Managed.{
  Kind, check_managed, check_existing, sync_object, reconcile_in, reconcile_body, object_state,
  reconcile,
}
use opensearch_k8s_operator.Objects.Managed.Untouched.{KeepsObjects}
use opensearch_k8s_operator.Objects.Managed.Stored.{
  Store, stored, stored-keeps, Remembers, Accepts, ensured_at, sync_object-stored, stored-read,
}

module _ {S : Type 0} (k : Kind S) (sv : ObjectServices S) where
  check_managed-same :
      (u : Bool) (o : Object S) (c : Cluster)
      → o.status.managed_cluster ≡ some c.uid
      → check_managed k sv u o c ≡ pure o
  unfolding check_managed
  check_managed-same u o c e = rw e (rw (eq_refl c.uid) refl)

  check_existing-ours :
      (u : Bool) (o : Object S)
      → o.status.existing ≡ some false
      → check_existing k sv u o ≡ pure (o, false)
  unfolding check_existing
  check_existing-ours u o e = rw e refl

  -- The deferred function.
  deferred : Bool → Finish → M Finish
  deferred u f =
      if u
      then (do attempt (update_object_status sv (λ o. object_state k f o.status)); pure f)
      else pure f

  deferred-Emits : (u : Bool) (f : Finish) → Emits KeepsObjects (deferred u f)
  unfolding deferred
  deferred-Emits u f =
      Emits-if u _ _
        (λ _.
          Emits-bind _ _
            (Emits-attempt (update_object_status sv (λ o. object_state k f o.status)) (
              update_object_status-Emits sv KeepsObjects (λ _. Unit {0}) _ tt (λ h o e. tt)
                (λ o q b. tt)))
            (λ _. Emits-pure f))
        (λ _. Emits-pure f)

  settled-stored :
      (base : Store) (u : Bool) (p : World × Result Finish Finish)
      → stored base (continue (settled p) (deferred u)).0.history ≡ stored base p.0.history
  settled-stored base u (w, ok f) =
      let (es, e, q) = (deferred-Emits u f).at w in rw e (stored-keeps base es w.history q)
  settled-stored base u (w, err f) =
      let (es, e, q) = (deferred-Emits u f).at w in rw e (stored-keeps base es w.history q)

  reconcile-body :
      (base : Store) (u : Bool) (o : Object S) (w : World)
      → stored base (reconcile k sv u o w).0.history
        ≡ stored base (reconcile_body k sv u o w).0.history
  unfolding reconcile deferred
  reconcile-body base u o w = settled-stored base u (reconcile_body k sv u o w)

  -- With a cluster that is ready, a run comes to its last part after two reads.
  body-sync :
      (u : Bool) (o : Object S) (c : Cluster) (w : World)
      → sv.get_cluster w.history o.opensearch_ref ≡ ok c
      → ((h : History) → sv.create_client h ≡ none)
      → o.status.managed_cluster ≡ some c.uid
      → o.status.existing ≡ some false
      → c.status.phase == "RUNNING" ≡ true
      → reconcile_body k sv u o w
        ≡ sync_object k sv o
            (log (log w (read "GetOpenSearchCluster")) (read "CreateClientForCluster"))
  unfolding reconcile_body reconcile_in
  body-sync u o c w found client managed own running = rw found (
      rw (check_managed-same u o c managed)
        (rw running (rw (client _) (rw (check_existing-ours u o own) refl))))

-- Suppose that OpenSearch answers with what was written and accepts each write, that the cluster of
-- the object is found, is the one of the status and is running, that a client can be made, and that
-- the status says that the object is the operator's own. Then after a run of the reconciler of a
-- role, a tenant or an action group OpenSearch holds, under the object's name, what was there if it
-- equals the spec and else the spec, and every other entry is what it was.
pub reconcile-ensures :
    {S : Type 0} (k : Kind S) (sv : ObjectServices S) (base : Store) (u : Bool) (o : Object S)
    (c : Cluster) (w : World)
    → Remembers sv base
    → Accepts k sv
    → ((h : History) → sv.get_cluster h o.opensearch_ref ≡ ok c)
    → ((h : History) → sv.create_client h ≡ none)
    → o.status.managed_cluster ≡ some c.uid
    → o.status.existing ≡ some false
    → c.status.phase == "RUNNING" ≡ true
    → (r n : String)
    → stored base (reconcile k sv u o w).0.history r n
      ≡ ensured_at k sv.equal o (stored base w.history) r n
reconcile-ensures k sv base u o c w remembers accepts found client managed own running r n =
    ap (λ s. s r n) (reconcile-body k sv base u o w)
    ∙ rw (body-sync k sv u o c w (found w.history) client managed own running) (
        sync_object-stored k sv base remembers accepts o
          (log (log w (read "GetOpenSearchCluster")) (read "CreateClientForCluster")) r n
        ∙ rw (stored-read base "CreateClientForCluster" (read "GetOpenSearchCluster" ∷ w.history))
            (rw (stored-read base "GetOpenSearchCluster" w.history) refl))
