-- ===== src/Objects/Managed/Untouched.antt =====
-- An object that was in OpenSearch before the operator came to it.
use opensearch_k8s_operator.Prelude.{◌≡◌, refl, Bool, true, not, some, ◌==◌}
use opensearch_k8s_operator.Api.{Cluster}
use opensearch_k8s_operator.Api.Objects.{
  ObjectStatus, Object, object_put, object_removed, object_status_put, secret_put, job_created,
  job_removed,
}
use opensearch_k8s_operator.Exec.{
  Event, read, pod_deleted, sts_applied, sts_removed, sts_status_put, status_put, settings_put,
  written, pure,
}
use opensearch_k8s_operator.Exec.Emits.{
  Emits, Emits-pure, Emits-raise, Emits-query, Emits-bind, Emits-attempt, Emits-if, Emits-option,
}
use opensearch_k8s_operator.Exec.Returns.{
  Returns, Returns-pure, Returns-raise, Returns-if, Returns-option, Emits-behind,
}
use opensearch_k8s_operator.Objects.{
  ObjectServices, update_object_status, fetch_opensearch_cluster, create_client,
}
use opensearch_k8s_operator.Objects.Statuses.{
  Fresh, update_object_status-Emits, update_object_status-Returns,
}
use opensearch_k8s_operator.Objects.Managed.{
  Kind, mismatch, set_status, check_managed, check_existing, reconcile_in, reconcile_body,
  object_state, reconcile, delete,
}
use opensearch_k8s_operator.Objects.Finish.Rules.{Emits-or_return, Emits-settled, Returns-or_return}

-- Nothing in OpenSearch is written or removed.
abbrev pub KeepsObjects : Event → Type 0
KeepsObjects (read s) = Unit {0}
KeepsObjects (pod_deleted n b) = ⊥
KeepsObjects (sts_applied s b) = ⊥
KeepsObjects (sts_removed n b) = ⊥
KeepsObjects (sts_status_put s b) = ⊥
KeepsObjects (status_put s b) = ⊥
KeepsObjects (settings_put p t b) = ⊥
KeepsObjects (written (object_put r n x) b) = ⊥
KeepsObjects (written (object_removed r n) b) = ⊥
KeepsObjects (written (object_status_put s) b) = Unit {0}
KeepsObjects (written (secret_put s) b) = ⊥
KeepsObjects (written (job_created j) b) = ⊥
KeepsObjects (written (job_removed n) b) = ⊥

abbrev pub Existed : {S : Type 0} → Object S → Type 0
Existed o = o.status.existing ≡ some true

module _ {S : Type 0} (k : Kind S) (sv : ObjectServices S) (fresh : Fresh sv Existed) where
  status-Emits : (f : Object S → ObjectStatus) → Emits KeepsObjects (update_object_status sv f)
  status-Emits f = update_object_status-Emits sv KeepsObjects Existed f tt fresh (λ o q b. tt)

  set_status-Emits : (f : ObjectStatus → ObjectStatus) → Emits KeepsObjects (set_status k sv f)
  unfolding set_status
  set_status-Emits f =
      Emits-or_return _ (update_object_status sv (λ o. f o.status)) (status-Emits _)

  check_managed-Emits :
      (u : Bool) (o : Object S) (c : Cluster) → Emits KeepsObjects (check_managed k sv u o c)
  unfolding check_managed
  check_managed-Emits u o c =
      Emits-option o.status.managed_cluster _ _
        (Emits-if u _ _ (λ _. set_status-Emits _) (λ _. Emits-pure o))
        (λ uid.
          Emits-if (not (uid == c.uid)) _ _ (λ _. Emits-raise (mismatch k)) (λ _. Emits-pure o))

  check_managed-Existed :
      (u : Bool) (o : Object S) (c : Cluster)
      → Existed o
      → Returns Existed (check_managed k sv u o c)
  unfolding check_managed set_status
  check_managed-Existed u o c e =
      Returns-option o.status.managed_cluster _ _
        (Returns-if u _ _
          (λ _.
            Returns-or_return _
              (update_object_status sv (λ o. record o.status { managed_cluster = some c.uid }))
              (update_object_status-Returns sv Existed Existed _ fresh (λ o q. q)))
          (λ _. Returns-pure o e))
        (λ uid.
          Returns-if (not (uid == c.uid)) _ _ (λ _. Returns-raise (mismatch k))
            (λ _. Returns-pure o e))

  check_existing-known :
      (u : Bool) (o : Object S) → Existed o → check_existing k sv u o ≡ pure (o, true)
  unfolding check_existing
  check_existing-known u o e = rw e refl

  reconcile_in-Emits :
      (u : Bool) (o : Object S) (c : Cluster)
      → Existed o
      → Emits KeepsObjects (reconcile_in k sv u o c)
  unfolding reconcile_in
  reconcile_in-Emits u o c e =
      Emits-behind (check_managed k sv u o c) _ (check_managed-Emits u o c)
        (check_managed-Existed u o c e)
        (λ r e.
          Emits-if (not (c.status.phase == "RUNNING")) _ _ (λ _. Emits-raise _)
            (λ _.
              Emits-bind _ _ (Emits-or_return _ (create_client sv) (Emits-query _ _ tt))
                (λ _. rw (check_existing-known u r e) (Emits-raise _))))

  reconcile_body-Emits :
      (u : Bool) (o : Object S) → Existed o → Emits KeepsObjects (reconcile_body k sv u o)
  unfolding reconcile_body
  reconcile_body-Emits u o e =
      Emits-bind _ _
        (Emits-or_return _ (fetch_opensearch_cluster sv o.opensearch_ref) (Emits-query _ _ tt))
        (λ c. Emits-option c _ _ (Emits-raise _) (λ c. reconcile_in-Emits u o c e))

  reconcile-Emits : (u : Bool) (o : Object S) → Existed o → Emits KeepsObjects (reconcile k sv u o)
  unfolding reconcile
  reconcile-Emits u o e =
      Emits-bind _ _ (Emits-settled (reconcile_body k sv u o) (reconcile_body-Emits u o e)) (λ f.
        Emits-if u _ _
          (λ _.
            Emits-bind _ _
              (Emits-attempt (update_object_status sv (λ o. object_state k f o.status))
                (status-Emits _))
              (λ _. Emits-pure f))
          (λ _. Emits-pure f))

delete-Existed :
    {S : Type 0} (k : Kind S) (sv : ObjectServices S) (o : Object S)
    → Existed o
    → delete k sv o ≡ pure tt
unfolding delete
delete-Existed k sv o e = rw e refl

-- For a role, a tenant or an action group: if the object, and each copy of it that is read, is marked
-- as one that existed in OpenSearch before, then a run of the reconciler writes and removes nothing
-- in OpenSearch, and Delete makes no call.
pub reconcile-preexisting :
    {S : Type 0} (k : Kind S) (sv : ObjectServices S) (u : Bool) (o : Object S)
    → Fresh sv Existed
    → Existed o
    → Emits KeepsObjects (reconcile k sv u o) × (delete k sv o ≡ pure tt)
reconcile-preexisting k sv u o fresh e = (reconcile-Emits k sv fresh u o e, delete-Existed k sv o e)
