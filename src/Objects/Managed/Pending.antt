-- ===== src/Objects/Managed/Pending.antt =====
-- The state PENDING of an object whose state CREATED is set whenever a run asks for another.
use opensearch_k8s_operator.Prelude.{
  ◌≡◌, ◌≢◌, Bool, true, false, not, ◌&&◌, refl, some, String, ◌==◌, eq_iff, nat_eq, if◌then◌else◌,
}
use opensearch_k8s_operator.Api.{Cluster, Outcome}
use opensearch_k8s_operator.Api.Objects.{
  ObjectStatus, Object, object_put, object_removed, object_status_put, secret_put, job_created,
  job_removed,
}
use opensearch_k8s_operator.Exec.{
  Event, read, pod_deleted, sts_applied, sts_removed, sts_status_put, status_put, settings_put,
  written, attempt,
}
use opensearch_k8s_operator.Exec.Emits.{
  Emits, Emits-pure, Emits-raise, Emits-query, Emits-command, Emits-bind, Emits-attempt, Emits-if,
  Emits-option,
}
use opensearch_k8s_operator.Exec.Returns.{Emits-behind}
use opensearch_k8s_operator.Objects.{
  ObjectServices, update_object_status, fetch_opensearch_cluster, create_client, object_exists,
  should_update_object, create_or_update_object,
}
use opensearch_k8s_operator.Objects.Finish.{Finish, is_error_set}
use opensearch_k8s_operator.Objects.Managed.{
  Kind, mismatch, finish_sync, set_status, check_managed, check_existing, sync_object, reconcile_in,
  reconcile_body, object_state, reconcile,
}
use opensearch_k8s_operator.Objects.Finish.Rules.{Emits-or_return, Emits-settled, Returns-settled}
use opensearch_k8s_operator.Objects.Statuses.{Fresh, update_object_status-Emits}
use opensearch_k8s_operator.Objects.Managed.Waits.{
  Waits, reconcile_body-Waits, reconcile_body-Returns,
}

abbrev OtherState : String → Type 0
OtherState s = s ≢ "PENDING"

abbrev pub NotPending : ObjectStatus → Type 0
NotPending status = OtherState status.state

-- No status of an object with the state PENDING is written.
abbrev pub WritesNoPending : Event → Type 0
WritesNoPending (read s) = Unit {0}
WritesNoPending (pod_deleted n b) = ⊥
WritesNoPending (sts_applied s b) = ⊥
WritesNoPending (sts_removed n b) = ⊥
WritesNoPending (sts_status_put s b) = ⊥
WritesNoPending (status_put s b) = ⊥
WritesNoPending (settings_put p t b) = ⊥
WritesNoPending (written (object_put r n x) b) = Unit {0}
WritesNoPending (written (object_removed r n) b) = ⊥
WritesNoPending (written (object_status_put s) b) = NotPending s
WritesNoPending (written (secret_put s) b) = ⊥
WritesNoPending (written (job_created j) b) = ⊥
WritesNoPending (written (job_removed n) b) = ⊥

ignored : OtherState "IGNORED"
ignored e = let h = (eq_iff "IGNORED" "PENDING").1 e in cc

created : OtherState "CREATED"
created e = let h = (eq_iff "CREATED" "PENDING").1 e in cc

failure : OtherState "ERROR"
failure e = let h = (eq_iff "ERROR" "PENDING").1 e in cc

-- The tests of the deferred function, apart from what they test.
marked : (exists error requeue ten create : Bool) → ObjectStatus → ObjectStatus
marked exists error requeue ten create a =
    let b = if error then record a { state = "ERROR" } else a in
    let c = if requeue && ten then record b { state = "PENDING" } else b in
    let d = if not error && create then record c { state = "CREATED" } else c in
    if exists then record d { state = "IGNORED" } else d

marked-NotPending :
    (exists error requeue ten create : Bool) (a : ObjectStatus)
    → ((requeue && ten) ≡ true → error ≡ false)
    → (requeue ≡ true → create ≡ true)
    → NotPending a
    → NotPending (marked exists error requeue ten create a)
unfolding marked
marked-NotPending true e r t c a w l h = ignored
marked-NotPending false true true true c a w l h = absurd (let x = w refl in cc)
marked-NotPending false true true false c a w l h = failure
marked-NotPending false true false t c a w l h = failure
marked-NotPending false false true t true a w l h = created
marked-NotPending false false true t false a w l h = absurd (let x = l refl in cc)
marked-NotPending false false false t true a w l h = created
marked-NotPending false false false t false a w l h = h

module _ {S : Type 0} (k : Kind S)
    (early : (r : Outcome) → r.requeue ≡ true → k.created r ≡ true) where
  object_state-NotPending :
      (f : Finish) (s : ObjectStatus) → Waits f → NotPending s → NotPending (object_state k f s)
  unfolding object_state marked
  object_state-NotPending f s w h =
      marked-NotPending (f.reason == k.exists_reason) (is_error_set f.error) f.result.requeue
        (nat_eq f.result.requeue_after 10) (k.created f.result) (record s { reason = f.reason }) w
        (early f.result) h

module _ {S : Type 0} (k : Kind S) (sv : ObjectServices S)
    (fresh : Fresh sv (λ o. NotPending o.status)) where
  status-Emits :
      (f : Object S → ObjectStatus)
      → ((o : Object S) → NotPending o.status → NotPending (f o))
      → Emits WritesNoPending (update_object_status sv f)
  status-Emits f keeps =
      update_object_status-Emits sv WritesNoPending (λ o. NotPending o.status) f tt fresh
        (λ o q b. keeps o q)

  set_status-Emits :
      (f : ObjectStatus → ObjectStatus)
      → ((s : ObjectStatus) → NotPending s → NotPending (f s))
      → Emits WritesNoPending (set_status k sv f)
  unfolding set_status
  set_status-Emits f keeps =
      Emits-or_return _ (update_object_status sv (λ o. f o.status))
        (status-Emits (λ o. f o.status) (λ o q. keeps o.status q))

  check_managed-Emits :
      (u : Bool) (o : Object S) (c : Cluster) → Emits WritesNoPending (check_managed k sv u o c)
  unfolding check_managed
  check_managed-Emits u o c =
      Emits-option o.status.managed_cluster _ _
        (Emits-if u _ _
          (λ _. set_status-Emits (λ s. record s { managed_cluster = some c.uid }) (λ s q. q))
          (λ _. Emits-pure o))
        (λ uid.
          Emits-if (not (uid == c.uid)) _ _ (λ _. Emits-raise (mismatch k)) (λ _. Emits-pure o))

  check_existing-Emits : (u : Bool) (o : Object S) → Emits WritesNoPending (check_existing k sv u o)
  unfolding check_existing
  check_existing-Emits u o =
      Emits-option o.status.existing _ _
        (Emits-bind _ _
          (Emits-or_return _ (object_exists sv k.resource o.name) (Emits-query _ _ tt))
          (λ b.
            Emits-if u _ _
              (λ _.
                Emits-bind _ _ (set_status-Emits (λ s. record s { existing = some b }) (λ s q. q))
                  (λ r. Emits-pure (r, b)))
              (λ _. Emits-raise _)))
        (λ b. Emits-pure (o, b))

  sync_object-Emits : (o : Object S) → Emits WritesNoPending (sync_object k sv o)
  unfolding sync_object
  sync_object-Emits o =
      Emits-bind _ _
        (Emits-or_return _
          (should_update_object sv k.resource k.zero_body o.name (k.request o.spec))
          (Emits-query _ _ tt))
        (λ b.
          Emits-if (not b) _ _ (λ _. Emits-raise _)
            (λ _.
              Emits-bind _ _
                (Emits-or_return _
                  (attempt (create_or_update_object sv k.resource o.name (k.request o.spec)))
                  (Emits-attempt (create_or_update_object sv k.resource o.name (k.request o.spec)) (
                    Emits-command (λ b. written (object_put k.resource o.name (k.request o.spec)) b)
                      _ (λ b. tt))))
                (λ r. Emits-pure (finish_sync k r))))

  reconcile_body-Emits : (u : Bool) (o : Object S) → Emits WritesNoPending (reconcile_body k sv u o)
  unfolding reconcile_body reconcile_in
  reconcile_body-Emits u o =
      Emits-bind _ _
        (Emits-or_return _ (fetch_opensearch_cluster sv o.opensearch_ref) (Emits-query _ _ tt))
        (λ found. Emits-option found _ _ (Emits-raise _) (λ c.
          Emits-bind _ _ (check_managed-Emits u o c) (λ r.
            Emits-if (not (c.status.phase == "RUNNING")) _ _ (λ _. Emits-raise _)
              (λ _. Emits-bind _ _ (Emits-or_return _ (create_client sv) (Emits-query _ _ tt)) (λ _.
                Emits-bind _ _ (check_existing-Emits u r)
                  (λ p. Emits-if p.1 _ _ (λ _. Emits-raise _) (λ _. sync_object-Emits p.0)))))))

-- If no copy of the object that is read has the state PENDING, then a run of the reconciler writes no
-- status with that state.
pub reconcile-NotPending :
    {S : Type 0} (k : Kind S) (sv : ObjectServices S) (u : Bool) (o : Object S)
    → ((r : Outcome) → r.requeue ≡ true → k.created r ≡ true)
    → Fresh sv (λ o. NotPending o.status)
    → Emits WritesNoPending (reconcile k sv u o)
unfolding reconcile
reconcile-NotPending k sv u o early fresh =
    Emits-behind _ _ (Emits-settled (reconcile_body k sv u o) (reconcile_body-Emits k sv fresh u o))
      (Returns-settled (reconcile_body k sv u o) (reconcile_body-Waits k sv u o)
        (reconcile_body-Returns k sv u o))
      (λ f q.
        Emits-if u _ _
          (λ _.
            Emits-bind _ _
              (Emits-attempt (update_object_status sv (λ o. object_state k f o.status)) (
                status-Emits k sv fresh (λ o. object_state k f o.status)
                  (λ o h. object_state-NotPending k early f o.status q h)))
              (λ _. Emits-pure f))
          (λ _. Emits-pure f))
