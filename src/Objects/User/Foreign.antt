-- ===== src/Objects/User/Foreign.antt =====
-- A user of OpenSearch that is not the object's own.
use mathlib.Core.Path.{◌∙◌}
use opensearch_k8s_operator.Prelude.{
  ◌≡◌, refl, Bool, false, not, some, List, [], ◌∷◌, String, ◌==◌, eq_refl, eq_iff, Bool-cases,
  Option-cases, sym, ap, inl, inr,
}
use opensearch_k8s_operator.Api.{Error, Cluster}
use opensearch_k8s_operator.Api.Objects.{
  Body, user, UserSpec, UserRequest, Object, Secret, object_put, object_removed, object_status_put,
  secret_put, job_created, job_removed,
}
use opensearch_k8s_operator.Exec.{
  Event, read, pod_deleted, sts_applied, sts_removed, sts_status_put, status_put, settings_put,
  written, History, Result, ok,
}
use opensearch_k8s_operator.Exec.Emits.{
  Emits, Emits-pure, Emits-raise, Emits-query, Emits-command, Emits-bind, Emits-attempt, Emits-if,
  Emits-option,
}
use opensearch_k8s_operator.Exec.Returns.{
  Returns, Returns-pure, Returns-raise, Returns-if, Returns-option, Returns-query, Emits-behind,
}
use opensearch_k8s_operator.Objects.{
  ObjectServices, named, update_object_status, fetch_opensearch_cluster, create_client,
}
use opensearch_k8s_operator.Objects.Finish.{or_return}
use opensearch_k8s_operator.Objects.Finish.Rules.{Emits-or_return, Emits-settled, Returns-or_return}
use opensearch_k8s_operator.Objects.Statuses.{
  Fresh, update_object_status-Emits, update_object_status-Returns,
}
use opensearch_k8s_operator.Objects.Managed.Stored.{answer}
use opensearch_k8s_operator.Objects.User.{
  value_at, with_value, k8s_attribute_field, k8s_attribute_secret_version_field, user_of,
  compare_user, should_update_user_of, carries, uid_matches_of, user_state, annotated, user_request,
  user_exists, should_update_user, user_uid_matches, manage_password_secret, mismatch, password_of,
  check_user_managed, sync_user, reconcile_user_in, reconcile_user_body, reconcile_user,
  delete_user_object,
}

-- Nothing in OpenSearch is written or removed; the secret of the password may be annotated.
abbrev pub KeepsUsers : Event → Type 0
KeepsUsers (read s) = Unit {0}
KeepsUsers (pod_deleted n b) = ⊥
KeepsUsers (sts_applied s b) = ⊥
KeepsUsers (sts_removed n b) = ⊥
KeepsUsers (sts_status_put s b) = ⊥
KeepsUsers (status_put s b) = ⊥
KeepsUsers (settings_put p t b) = ⊥
KeepsUsers (written (object_put r n x) b) = ⊥
KeepsUsers (written (object_removed r n) b) = ⊥
KeepsUsers (written (object_status_put s) b) = Unit {0}
KeepsUsers (written (secret_put s) b) = Unit {0}
KeepsUsers (written (job_created j) b) = ⊥
KeepsUsers (written (job_removed n) b) = ⊥

ok_inj : {A : Type 0} {a b : A} → ◌≡◌ {A = Result Error A} (ok a) (ok b) → a ≡ b
ok_inj e = cc

-- The same object: Kubernetes finds it by its name, and never changes its uid.
pub record Same {S : Type 0} (o r : Object S) : Type 0 where
  pub name : r.name ≡ o.name
  pub uid : r.uid ≡ o.uid

pub value_at-with_value :
    (k v : String) (kvs : List (String × String)) → value_at k (with_value k v kvs) ≡ some v
unfolding value_at with_value
value_at-with_value k v [] = rw (eq_refl k) refl
value_at-with_value k v ((j, x) ∷ kvs) = elim (Bool-cases (j == k)) [
  | inl e ↦ rw e (rw (eq_refl k) refl)
  | inr e ↦ rw e (rw e (value_at-with_value k v kvs))
]

value_at-with_other :
    (k j v : String) (kvs : List (String × String))
    → j == k ≡ false
    → value_at k (with_value j v kvs) ≡ value_at k kvs
unfolding value_at with_value
value_at-with_other k j v [] d = rw d refl
value_at-with_other k j v ((i, x) ∷ kvs) d = elim (Bool-cases (i == j)) [
  | inl e ↦ rw ((eq_iff i j).0 e) (rw (eq_refl j) (rw d refl))
  | inr e ↦ rw e (elim (Bool-cases (i == k)) [
    | inl f ↦ rw f refl
    | inr f ↦ rw f (value_at-with_other k j v kvs d)
  ])
]

requested_uid :
    (o : Object UserSpec) (p : String) (s : Secret)
    → value_at k8s_attribute_field (user_request o p s).attributes ≡ some o.uid
unfolding user_request
requested_uid o p s =
    value_at-with_other k8s_attribute_field k8s_attribute_secret_version_field s.resource_version
      (with_value k8s_attribute_field o.uid o.spec.attributes) refl
    ∙ value_at-with_value k8s_attribute_field o.uid o.spec.attributes

-- The comparison with a user that does not carry the uid fails.
compare_user-foreign :
    (equal : Body → Body → Bool) (wanted x : UserRequest) (uid : String)
    → value_at k8s_attribute_field wanted.attributes ≡ some uid
    → carries uid x ≡ false
    → (b : Bool) → ¬ (compare_user equal wanted x ≡ ok b)
unfolding compare_user carries
compare_user-foreign equal wanted x uid w c b e =
    elim (Option-cases (value_at k8s_attribute_field x.attributes)) [
      | inl p ↦ let q = rw (p, compare_user) at e in cc
      | inr (v, p) ↦
          let other = rw (p, carries) at c in
          let q = rw other at (rw w at (rw (p, compare_user) at e)) in cc
    ]

should_update-foreign :
    (equal : Body → Body → Bool) (name : String) (wanted x : UserRequest) (uid : String)
    → value_at k8s_attribute_field wanted.attributes ≡ some uid
    → carries uid x ≡ false
    → (b : Bool)
    → ¬ (should_update_user_of equal name wanted (ok (answer (some (user x)) name)) ≡ ok b)
unfolding should_update_user_of answer named user_of
should_update-foreign equal name wanted x uid w c b e =
    compare_user-foreign equal wanted x uid w c b (rw (eq_refl name) at e)

matches-foreign :
    (name uid : String) (x : UserRequest)
    → carries uid x ≡ false
    → uid_matches_of name uid (ok (answer (some (user x)) name)) ≡ ok false
unfolding uid_matches_of answer named user_of
matches-foreign name uid x c = rw (eq_refl name) (rw c refl)

module _ (sv : ObjectServices UserSpec) (namespace : String) (o : Object UserSpec) (x : UserRequest)
    (held : (h : History)
      → sv.get_security h "internalusers" o.name ≡ ok (answer (some (user x)) o.name))
    (foreign : carries o.uid x ≡ false) where
  -- The test before the write never succeeds.
  should_update-Returns :
      (r : Object UserSpec) (p : String) (s : Secret)
      → Same o r
      → Returns (λ _. ⊥) (should_update_user sv namespace r.name (user_request r p s))
  unfolding user_request
  should_update-Returns r p s same =
      Returns-query (λ _. ⊥) "GetSecurityResource"
        (λ h.
          should_update_user_of sv.equal r.name (user_request r p s)
            (sv.get_security h "internalusers" r.name))
        (λ h b e.
          should_update-foreign sv.equal o.name (user_request r p s) x o.uid
            (requested_uid r p s ∙ ap (λ u. some u) same.uid) foreign b
            (rw (held h) at (rw same.name at e)))

  manage_password_secret-Emits :
      (r : Object UserSpec) → Emits KeepsUsers (manage_password_secret sv namespace r)
  unfolding manage_password_secret
  manage_password_secret-Emits r =
      Emits-bind _ _ (Emits-query "GetSecret" (λ h. sv.get_secret h r.spec.password_secret) tt)
        (λ s.
          Emits-bind _ _
            (Emits-command (λ b. written (secret_put (annotated r.name namespace s)) b) _ (λ b. tt))
            (λ _. record { at = λ w. ([], refl, tt) }))

  password_of-Emits :
      (r : Object UserSpec) (s : Secret) → Emits KeepsUsers (password_of sv namespace r s)
  password_of-Emits r s =
      Emits-option (value_at r.spec.password_key s.entries) _ _ (Emits-raise _) (λ p. Emits-pure p)

  sync_user-Emits : (r : Object UserSpec) → Same o r → Emits KeepsUsers (sync_user sv namespace r)
  unfolding sync_user
  sync_user-Emits r same =
      Emits-bind _ _
        (Emits-or_return _ (manage_password_secret sv namespace r) (manage_password_secret-Emits r))
        (λ s. Emits-bind (password_of sv namespace r s) _ (password_of-Emits r s) (λ p.
          Emits-behind
            (or_return (λ _. "failed to get user status from Opensearch API")
              (should_update_user sv namespace r.name (user_request r p s)))
            _
            (Emits-or_return _ (should_update_user sv namespace r.name (user_request r p s))
              (Emits-query _ _ tt))
            (Returns-or_return _ (should_update_user sv namespace r.name (user_request r p s))
              (should_update-Returns r p s same))
            (λ b no. absurd no)))

  module _ (fresh : Fresh sv (Same o)) where
    check_user_managed-Emits :
        (u : Bool) (c : Cluster) → Emits KeepsUsers (check_user_managed sv namespace u o c)
    unfolding check_user_managed
    check_user_managed-Emits u c =
        Emits-option o.status.managed_cluster _ _
          (Emits-if u _ _
            (λ _.
              Emits-or_return _
                (update_object_status sv (λ o. record o.status { managed_cluster = some c.uid }))
                (update_object_status-Emits sv KeepsUsers (Same o) _ tt fresh (λ o q b. tt)))
            (λ _. Emits-pure o))
          (λ uid.
            Emits-if (not (uid == c.uid)) _ _ (λ _. Emits-raise (mismatch sv namespace))
              (λ _. Emits-pure o))

    check_user_managed-Same :
        (u : Bool) (c : Cluster) → Returns (Same o) (check_user_managed sv namespace u o c)
    unfolding check_user_managed
    check_user_managed-Same u c =
        Returns-option o.status.managed_cluster _ _
          (Returns-if u _ _
            (λ _.
              Returns-or_return _
                (update_object_status sv (λ o. record o.status { managed_cluster = some c.uid }))
                (update_object_status-Returns sv (Same o) (Same o) _ fresh
                  (λ o q. record { name = q.name; uid = q.uid })))
            (λ _. Returns-pure o (record { name = refl; uid = refl })))
          (λ uid.
            Returns-if (not (uid == c.uid)) _ _ (λ _. Returns-raise (mismatch sv namespace))
              (λ _. Returns-pure o (record { name = refl; uid = refl })))

    reconcile_user_body-Emits : (u : Bool) → Emits KeepsUsers (reconcile_user_body sv namespace u o)
    unfolding reconcile_user_body reconcile_user_in
    reconcile_user_body-Emits u =
        Emits-bind _ _
          (Emits-or_return _ (fetch_opensearch_cluster sv o.opensearch_ref) (Emits-query _ _ tt))
          (λ found. Emits-option found _ _ (Emits-raise _) (λ c.
            Emits-behind (check_user_managed sv namespace u o c) _ (check_user_managed-Emits u c)
              (check_user_managed-Same u c)
              (λ r same.
                Emits-if (not (c.status.phase == "RUNNING")) _ _ (λ _. Emits-raise _)
                  (λ _.
                    Emits-bind _ _ (Emits-or_return _ (create_client sv) (Emits-query _ _ tt))
                      (λ _. sync_user-Emits r same)))))

    reconcile_user-Emits : (u : Bool) → Emits KeepsUsers (reconcile_user sv namespace u o)
    unfolding reconcile_user
    reconcile_user-Emits u =
        Emits-bind _ _
          (Emits-settled (reconcile_user_body sv namespace u o) (reconcile_user_body-Emits u))
          (λ f.
            Emits-if u _ _
              (λ _.
                Emits-bind _ _
                  (Emits-attempt (update_object_status sv (λ o. user_state f o.status))
                    (update_object_status-Emits sv KeepsUsers (Same o) _ tt fresh (λ o q b. tt)))
                  (λ _. Emits-pure f))
              (λ _. Emits-pure f))

  delete_user_object-Emits : Emits KeepsUsers (delete_user_object sv namespace o)
  unfolding delete_user_object
  delete_user_object-Emits =
      Emits-bind (fetch_opensearch_cluster sv o.opensearch_ref) _ (Emits-query _ _ tt) (λ found.
        Emits-option found _ _ (Emits-pure tt) (λ c.
          Emits-if c.terminating _ _ (λ _. Emits-pure tt)
            (λ _. Emits-bind (create_client sv) _ (Emits-query _ _ tt) (λ _.
              Emits-bind (user_exists sv namespace o.name) _ (Emits-query _ _ tt) (λ e.
                Emits-if (not e) _ _ (λ _. Emits-pure tt)
                  (λ _.
                    Emits-behind (user_uid_matches sv namespace o.name o.uid) _ (Emits-query _ _ tt)
                      (Returns-query (λ b. b ≡ false) "GetSecurityResource"
                        (λ h.
                          uid_matches_of o.name o.uid (sv.get_security h "internalusers" o.name))
                        (λ h b q.
                          ok_inj (sym q ∙ (rw (held h) (matches-foreign o.name o.uid x foreign)))))
                      (λ b q. rw q (Emits-pure tt))))))))

-- If OpenSearch holds a user under the object's name that does not carry the object's uid, and every
-- copy of the object that is read has its name and uid, then neither a run of the reconciler of users
-- nor Delete writes or removes anything in OpenSearch.
pub reconcile_user-foreign :
    (sv : ObjectServices UserSpec) (namespace : String) (u : Bool) (o : Object UserSpec)
    (x : UserRequest)
    → ((h : History)
        → sv.get_security h "internalusers" o.name ≡ ok (answer (some (user x)) o.name))
    → carries o.uid x ≡ false
    → Fresh sv (Same o)
    → Emits KeepsUsers (reconcile_user sv namespace u o)
      × Emits KeepsUsers (delete_user_object sv namespace o)
reconcile_user-foreign sv namespace u o x held foreign fresh = (
  reconcile_user-Emits sv namespace o x held foreign fresh u,
  delete_user_object-Emits sv namespace o x held foreign,
)
