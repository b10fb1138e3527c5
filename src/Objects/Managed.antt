-- ===== src/Objects/Managed.antt =====
-- The reconcilers of roles, tenants and action groups (pkg/reconcilers/role.go, tenant.go and
-- actiongroup.go), which are one program but for the data in Kind. Events for the recorder are left
-- out.
pub mod Untouched
pub mod Waits
pub mod Pending
pub mod Stored
pub mod Ensures
use opensearch_k8s_operator.Prelude.{
  Bool, true, false, not, ◌&&◌, Option, none, some, String, ◌<>◌, ◌==◌, nat_eq, if◌then◌else◌,
}
use opensearch_k8s_operator.Api.{Error, failed, Cluster, Outcome}
use opensearch_k8s_operator.Api.Objects.{Body, ObjectStatus, Object}
use opensearch_k8s_operator.Exec.{Result, ok, err, Exec, M, pure, raise, ◌>>=◌, ◌>>◌, attempt}
use opensearch_k8s_operator.Objects.{
  ObjectServices, object_exists, should_update_object, create_or_update_object, delete_object,
  fetch_opensearch_cluster, create_client, update_object_status,
}
use opensearch_k8s_operator.Objects.Finish.{
  Finish, at_once, again_in, failure, or_return, leave, is_error_set, settled,
}

-- What tells the three apart: the resource of the security API, the body that a spec asks for and
-- that a missing name gives, the test for the state CREATED, and texts.
pub record Kind (S : Type 0) : Type 0 where
  pub resource : String
  pub request : S → Body
  pub zero_body : Body
  pub created : Outcome → Bool
  pub exists_reason : String
  pub mismatch_reason : String
  pub exists_failed : String
  pub should_update_failed : String
  pub update_failed : String

module _ {S : Type 0} (k : Kind S) where
  -- The change that the deferred function makes to the status.
  unfoldable pub object_state : Finish → ObjectStatus → ObjectStatus
  object_state f status =
      let a = record status { reason = f.reason } in
      let b = if is_error_set f.error then record a { state = "ERROR" } else a in
      let c =
        if f.result.requeue && nat_eq f.result.requeue_after 10
        then record b { state = "PENDING" }
        else b in
      let d =
        if not (is_error_set f.error) && k.created f.result
        then record c { state = "CREATED" }
        else c in
      if f.reason == k.exists_reason then record d { state = "IGNORED" } else d

  abbrev pub mismatch : Finish
  mismatch = failure k.mismatch_reason (failed k.mismatch_reason)

  abbrev pub finish_sync : Result Error (Unit {0}) → Finish
  finish_sync (ok tt) = record { reason = ""; result = again_in 30; error = none }
  finish_sync (err e) = record { reason = k.update_failed; result = again_in 30; error = some e }

  module _ (sv : ObjectServices S) where
    -- The update of a status inside the body.
    unfoldable pub set_status : (ObjectStatus → ObjectStatus) → Exec Finish (Object S)
    set_status f =
        or_return (λ e. "failed to update status: " <> sv.error_text e)
          (update_object_status sv (λ o. f o.status))

    -- The cluster must not change; the first run notes it.
    unfoldable pub check_managed : Bool → Object S → Cluster → Exec Finish (Object S)
    check_managed update_status o cluster = elim o.status.managed_cluster [
      | some uid ↦ if not (uid == cluster.uid) then raise mismatch else pure o
      | none ↦
          if update_status
          then set_status (λ s. record s { managed_cluster = some cluster.uid })
          else pure o
    ]

    -- Whether the object existed before the operator came to it, asked once and then kept in the
    -- status; the status that was written holds what was asked.
    unfoldable pub check_existing : Bool → Object S → Exec Finish (Object S × Bool)
    check_existing update_status o = elim o.status.existing [
      | some exists ↦ pure (o, exists)
      | none ↦ do
        exists ← or_return (λ _. k.exists_failed) (object_exists sv k.resource o.name)
        if update_status
            then (do o' ← set_status (λ s. record s { existing = some exists }); pure (o', exists))
            else leave "" at_once
    ]

    unfoldable pub sync_object : Object S → Exec Finish Finish
    sync_object o = do
      let body = k.request o.spec
      should_update ←
          or_return (λ _. k.should_update_failed)
            (should_update_object sv k.resource k.zero_body o.name body)
      if not should_update then leave "" (again_in 30) else (do
        r ← or_return (λ _. "") (attempt (create_or_update_object sv k.resource o.name body))
        pure (finish_sync r))

    -- What follows once the cluster is there.
    unfoldable pub reconcile_in : Bool → Object S → Cluster → Exec Finish Finish
    reconcile_in update_status o cluster = do
      o ← check_managed update_status o cluster
      if not (cluster.status.phase == "RUNNING")
          then leave "waiting for opensearch cluster status to be running" (again_in 10)
          else (do
            or_return (λ _. "error creating opensearch client") (create_client sv)
            (o, exists) ← check_existing update_status o
            if exists then leave k.exists_reason at_once else sync_object o)

    unfoldable pub reconcile_body : Bool → Object S → Exec Finish Finish
    reconcile_body update_status o = do
      cluster ←
          or_return (λ _. "error fetching opensearch cluster")
            (fetch_opensearch_cluster sv o.opensearch_ref)
      elim cluster [
        | none ↦ leave "waiting for opensearch cluster to exist" (again_in 10)
        | some cluster ↦ reconcile_in update_status o cluster
      ]

    -- The body, then the deferred function; an error of the latter is only logged.
    unfoldable pub reconcile : Bool → Object S → M Finish
    reconcile update_status o = do
      f ← (λ w. settled (reconcile_body update_status o w))
      if update_status
          then (do attempt (update_object_status sv (λ o. object_state f o.status)); pure f)
          else pure f

    unfoldable pub delete : Object S → M (Unit {0})
    delete o = elim o.status.existing [
      | none ↦ pure tt
      | some true ↦ pure tt
      | some false ↦ do
        cluster ← fetch_opensearch_cluster sv o.opensearch_ref
        elim cluster [
          | none ↦ pure tt
          | some c ↦ if c.terminating then pure tt else (do
            create_client sv
            exist ← object_exists sv k.resource o.name
            if not exist then pure tt else delete_object sv k.resource o.name)
        ]
    ]
