-- ===== src/Objects/Statuses.antt =====
-- What the write of an object's status back emits and returns, where each fresh copy of the object
-- meets a predicate.
use opensearch_k8s_operator.Prelude.{◌≡◌, Bool}
use opensearch_k8s_operator.Api.Objects.{ObjectStatus, Object, object_status_put}
use opensearch_k8s_operator.Exec.{Event, read, written, History, ok, pure}
use opensearch_k8s_operator.Exec.Emits.{
  Emits, Emits-pure, Emits-query, Emits-command, Emits-bind, Emits-on_conflict,
}
use opensearch_k8s_operator.Exec.Returns.{
  Returns, Returns-pure, Returns-bind, Returns-query, Returns-behind, Returns-on_conflict,
  Emits-behind,
}
use opensearch_k8s_operator.Objects.{
  ObjectServices, put_status, try_object_status, update_object_status,
}

module _ {S : Type 0} (sv : ObjectServices S) where
  -- Every copy of the object that is read meets `Q`.
  abbrev pub Fresh : (Object S → Type 0) → Type 0
  Fresh Q = (h : History) (o : Object S) → sv.get_object h ≡ ok o → Q o

  pub update_object_status-Emits :
      (P : Event → Type 0) (Q : Object S → Type 0) (f : Object S → ObjectStatus)
      → P (read "Get")
      → Fresh Q
      → ((o : Object S) → Q o → (b : Bool) → P (written (object_status_put (f o)) b))
      → Emits P (update_object_status sv f)
  unfolding update_object_status try_object_status
  update_object_status-Emits P Q f reads fresh puts = Emits-on_conflict 4 (try_object_status sv f) (
      Emits-behind _ _ (Emits-query "Get" sv.get_object reads)
        (Returns-query Q "Get" sv.get_object fresh)
        (λ o q.
          Emits-bind (put_status sv (f o)) _
            (Emits-command (λ b. written (object_status_put (f o)) b)
              (λ h. sv.put_object_status h (f o)) (puts o q))
            (λ _. Emits-pure _)))

  pub update_object_status-Returns :
      (Q R : Object S → Type 0) (f : Object S → ObjectStatus)
      → Fresh Q
      → ((o : Object S) → Q o → R (record o { status = f o }))
      → Returns R (update_object_status sv f)
  unfolding update_object_status try_object_status
  update_object_status-Returns Q R f fresh keeps = Returns-on_conflict 4 (try_object_status sv f) (
      Returns-behind _ _ (Returns-query Q "Get" sv.get_object fresh) (λ o q.
        Returns-bind (put_status sv (f o)) (λ _. pure (record o { status = f o }))
          (λ _. Returns-pure _ (keeps o q))))
