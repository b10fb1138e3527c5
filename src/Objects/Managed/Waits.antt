-- ===== src/Objects/Managed/Waits.antt =====
-- How a run of the reconciler of objects may end when it asks for the next one in ten seconds.
use opensearch_k8s_operator.Prelude.{◌≡◌, refl, Bool, true, false, not, ◌&&◌, some, ◌==◌, nat_eq}
use opensearch_k8s_operator.Api.{Error, Cluster}
use opensearch_k8s_operator.Api.Objects.{Object, ObjectStatus}
use opensearch_k8s_operator.Exec.{Result, ok, err, attempt}
use opensearch_k8s_operator.Exec.Returns.{
  Returns, Returns-pure, Returns-raise, Returns-if, Returns-bind, Returns-option,
}
use opensearch_k8s_operator.Objects.{
  ObjectServices, update_object_status, fetch_opensearch_cluster, create_client, object_exists,
  should_update_object, create_or_update_object,
}
use opensearch_k8s_operator.Objects.Finish.{Finish, is_error_set, or_return}
use opensearch_k8s_operator.Objects.Managed.{
  Kind, mismatch, finish_sync, set_status, check_managed, check_existing, sync_object, reconcile_in,
  reconcile_body,
}
use opensearch_k8s_operator.Objects.Finish.Rules.{
  Leaves, Leaves-pure, Leaves-raise, Leaves-bind, Leaves-if, Leaves-option, Leaves-or_return,
}

-- A run that asks for another one in ten seconds has no error.
abbrev pub Waits : Finish → Type 0
Waits f =
    (f.result.requeue && nat_eq f.result.requeue_after 10) ≡ true → is_error_set f.error ≡ false

finish_sync-Waits :
    {S : Type 0} (k : Kind S) (r : Result Error (Unit {0})) → Waits (finish_sync k r)
finish_sync-Waits k (ok tt) e = refl
finish_sync-Waits k (err x) e = cc

module _ {S : Type 0} (k : Kind S) (sv : ObjectServices S) where
  set_status-Waits : (f : ObjectStatus → ObjectStatus) → Leaves Waits (set_status k sv f)
  unfolding set_status
  set_status-Waits f = Leaves-or_return _ (update_object_status sv (λ o. f o.status)) (λ x e. cc)

  check_managed-Waits :
      (u : Bool) (o : Object S) (c : Cluster) → Leaves Waits (check_managed k sv u o c)
  unfolding check_managed
  check_managed-Waits u o c =
      Leaves-option o.status.managed_cluster _ _
        (Leaves-if u _ _ (set_status-Waits _) (Leaves-pure o))
        (λ uid.
          Leaves-if (not (uid == c.uid)) _ _ (Leaves-raise (mismatch k) (λ e. cc)) (Leaves-pure o))

  check_existing-Waits : (u : Bool) (o : Object S) → Leaves Waits (check_existing k sv u o)
  unfolding check_existing
  check_existing-Waits u o =
      Leaves-option o.status.existing _ _
        (Leaves-bind _ _ (Leaves-or_return _ (object_exists sv k.resource o.name) (λ x e. cc)) (λ b.
          Leaves-if u _ _
            (Leaves-bind _ _ (set_status-Waits (λ s. record s { existing = some b }))
              (λ r. Leaves-pure (r, b)))
            (Leaves-raise _ (λ e. refl))))
        (λ b. Leaves-pure (o, b))

  sync_object-Waits : (o : Object S) → Leaves Waits (sync_object k sv o)
  unfolding sync_object
  sync_object-Waits o =
      Leaves-bind _ _
        (Leaves-or_return _
          (should_update_object sv k.resource k.zero_body o.name (k.request o.spec)) (λ x e. cc))
        (λ b. Leaves-if (not b) _ _ (Leaves-raise _ (λ e. refl)) (
          Leaves-bind _ _
            (Leaves-or_return _
              (attempt (create_or_update_object sv k.resource o.name (k.request o.spec)))
              (λ x e. cc))
            (λ r. Leaves-pure (finish_sync k r))))

  pub reconcile_body-Waits : (u : Bool) (o : Object S) → Leaves Waits (reconcile_body k sv u o)
  unfolding reconcile_body reconcile_in
  reconcile_body-Waits u o =
      Leaves-bind _ _
        (Leaves-or_return _ (fetch_opensearch_cluster sv o.opensearch_ref) (λ x e. cc))
        (λ found. Leaves-option found _ _ (Leaves-raise _ (λ e. refl)) (λ c.
          Leaves-bind _ _ (check_managed-Waits u o c) (λ r.
            Leaves-if (not (c.status.phase == "RUNNING")) _ _ (Leaves-raise _ (λ e. refl)) (
              Leaves-bind _ _ (Leaves-or_return _ (create_client sv) (λ x e. cc)) (λ _.
                Leaves-bind _ _ (check_existing-Waits u r)
                  (λ p. Leaves-if p.1 _ _ (Leaves-raise _ (λ e. refl)) (sync_object-Waits p.0)))))))

  sync_object-Returns : (o : Object S) → Returns Waits (sync_object k sv o)
  unfolding sync_object
  sync_object-Returns o =
      Returns-bind
        (or_return _ (should_update_object sv k.resource k.zero_body o.name (k.request o.spec))) _
        (λ b.
          Returns-if (not b) _ _ (λ _. Returns-raise _)
            (λ _.
              Returns-bind
                (or_return _
                  (attempt (create_or_update_object sv k.resource o.name (k.request o.spec))))
                _ (λ r. Returns-pure (finish_sync k r) (finish_sync-Waits k r))))

  pub reconcile_body-Returns : (u : Bool) (o : Object S) → Returns Waits (reconcile_body k sv u o)
  unfolding reconcile_body reconcile_in
  reconcile_body-Returns u o =
      Returns-bind (or_return _ (fetch_opensearch_cluster sv o.opensearch_ref)) _ (λ found.
        Returns-option found _ _ (Returns-raise _) (λ c.
          Returns-bind (check_managed k sv u o c) _ (λ r.
            Returns-if (not (c.status.phase == "RUNNING")) _ _ (λ _. Returns-raise _)
              (λ _. Returns-bind (or_return _ (create_client sv)) _ (λ _.
                Returns-bind (check_existing k sv u r) _ (λ p.
                  Returns-if p.1 _ _ (λ _. Returns-raise _) (λ _. sync_object-Returns p.0)))))))
