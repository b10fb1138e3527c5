-- ===== src/Objects/User.antt =====
-- UserReconciler (pkg/reconcilers/users.go) and the calls on users of
-- opensearch-gateway/services/os_security_service.go. Events for the recorder are left out.
pub mod Foreign
use opensearch_k8s_operator.Prelude.{
  Bool, true, false, not, ◌&&◌, Option, none, some, List, [], ◌∷◌, String, ◌<>◌, ◌==◌, nat_eq,
  length, if◌then◌else◌,
}
use opensearch_k8s_operator.Api.{Error, failed, Cluster}
use opensearch_k8s_operator.Api.Objects.{
  Body, role, tenant, action_group, user, mapping, UserSpec, UserRequest, ObjectStatus, Object,
  Secret, secret_put,
}
use opensearch_k8s_operator.Exec.{
  written, Result, ok, err, Exec, M, pure, raise, ◌>>=◌, ◌>>◌, query, command, attempt,
}
use opensearch_k8s_operator.Objects.{
  Response, ObjectServices, bad_answer, is_error, named, object_exists, create_or_update_object,
  delete_object, fetch_opensearch_cluster, create_client, update_object_status,
}
use opensearch_k8s_operator.Objects.Finish.{
  Finish, at_once, again_in, failure, or_return, leave, is_error_set, settled,
}

-- A map from texts to texts: what stands at a key, and with a key set.
unfoldable pub value_at : String → List (String × String) → Option String
value_at k [] = none
value_at k ((j, v) ∷ kvs) = if j == k then some v else value_at k kvs

unfoldable pub with_value : String → String → List (String × String) → List (String × String)
with_value k v [] = (k, v) ∷ []
with_value k v ((j, x) ∷ kvs) =
    let rest = with_value k v kvs in if j == k then (k, v) ∷ kvs else (j, x) ∷ rest

abbrev pub k8s_attribute_field : String
k8s_attribute_field = "k8s-uid"

abbrev pub k8s_attribute_secret_version_field : String
k8s_attribute_secret_version_field = "secret-version"

abbrev pub no_user : UserRequest
no_user = record { password = ""; security_roles = []; backend_roles = []; attributes = [] }

-- The decoder makes users of what the API answers about users.
unfoldable pub user_of : Body → UserRequest
user_of (user u) = u
user_of (role r) = no_user
user_of (tenant t) = no_user
user_of (action_group g) = no_user
user_of (mapping m) = no_user

-- A missing key of a Go map gives "".
abbrev pub is_value : String → Option String → Bool
is_value uid none = uid == ""
is_value uid (some v) = uid == v

-- Whose the user is that the API answered, and whether it differs from the wanted one, whose password
-- is blanked.
unfoldable pub compare_user : (Body → Body → Bool) → UserRequest → UserRequest → Result Error Bool
compare_user equal wanted existing = elim (value_at k8s_attribute_field existing.attributes) [
  | none ↦ err (failed "user resource not currently managed by kubernetes")
  | some uid ↦
      if not (is_value uid (value_at k8s_attribute_field wanted.attributes))
      then err (failed "kubernetes resource conflict; uids don't match")
      else ok (not (equal (user (record wanted { password = "" })) (user existing)))
]

abbrev pub compare_in :
    (Body → Body → Bool)
    → String
    → UserRequest
    → Result Error (List (String × Body))
    → Result Error Bool
compare_in equal name wanted (err e) = err e
compare_in equal name wanted (ok bodies) =
    compare_user equal wanted (user_of (named (user no_user) name bodies))

unfoldable pub should_update_user_of :
    (Body → Body → Bool) → String → UserRequest → Result Error Response → Result Error Bool
should_update_user_of equal name wanted (err e) = err e
should_update_user_of equal name wanted (ok r) =
    if nat_eq r.status_code 404
    then ok true
    else if is_error r
    then err bad_answer
    else compare_in equal name wanted r.bodies

unfoldable pub carries : String → UserRequest → Bool
carries uid existing = elim (value_at k8s_attribute_field existing.attributes) [
  | none ↦ false
  | some v ↦ v == uid
]

abbrev pub carries_in : String → String → Result Error (List (String × Body)) → Result Error Bool
carries_in name uid (err e) = err e
carries_in name uid (ok bodies) = ok (carries uid (user_of (named (user no_user) name bodies)))

unfoldable pub uid_matches_of : String → String → Result Error Response → Result Error Bool
uid_matches_of name uid (err e) = err e
uid_matches_of name uid (ok r) = if is_error r then err bad_answer else carries_in name uid r.bodies

-- The change that the deferred function makes to the status.
unfoldable pub user_state : Finish → ObjectStatus → ObjectStatus
user_state f status =
    let a = record status { reason = f.reason } in
    let b = if is_error_set f.error then record a { state = "ERROR" } else a in
    let c =
      if f.result.requeue && nat_eq f.result.requeue_after 10
      then record b { state = "PENDING" }
      else b in
    if not (is_error_set f.error) && nat_eq f.result.requeue_after 30
    then record c { state = "CREATED" }
    else c

-- The annotations that name the user on the secret of its password. A secret with more keys than one
-- serves several users.
unfoldable pub annotated : String → String → Secret → Secret
annotated username namespace secret =
    let a =
      if nat_eq (length secret.entries) 1
      then with_value "opensearchuser/name" username secret.annotations
      else secret.annotations in
    record secret { annotations = with_value "opensearchuser/namespace" namespace a }

unfoldable pub user_request : Object UserSpec → String → Secret → UserRequest
user_request o password secret = record {
  password = password;
  security_roles = o.spec.security_roles;
  backend_roles = o.spec.backend_roles;
  attributes =
      with_value k8s_attribute_secret_version_field secret.resource_version
        (with_value k8s_attribute_field o.uid o.spec.attributes);
}

module _ (sv : ObjectServices UserSpec) (namespace : String) where
  abbrev pub user_exists : String → M Bool
  user_exists name = object_exists sv "internalusers" name

  abbrev pub should_update_user : String → UserRequest → M Bool
  should_update_user name wanted =
      query "GetSecurityResource"
        (λ h. should_update_user_of sv.equal name wanted (sv.get_security h "internalusers" name))

  abbrev pub user_uid_matches : String → String → M Bool
  user_uid_matches name uid =
      query "GetSecurityResource"
        (λ h. uid_matches_of name uid (sv.get_security h "internalusers" name))

  abbrev pub create_or_update_user : String → UserRequest → M (Unit {0})
  create_or_update_user name wanted = create_or_update_object sv "internalusers" name (user wanted)

  abbrev pub delete_user : String → M (Unit {0})
  delete_user name = delete_object sv "internalusers" name

  -- The secret as CreateSecret leaves it, which Go passes by reference.
  abbrev pub applied_secret : Secret → M Secret
  applied_secret s w = (w, ok (sv.applied_secret w.history s))

  unfoldable pub manage_password_secret : Object UserSpec → M Secret
  manage_password_secret o = do
    secret ← query "GetSecret" (λ h. sv.get_secret h o.spec.password_secret)
    let patched = annotated o.name namespace secret
    command (written (secret_put patched)) (λ h. sv.put_secret h patched)
    applied_secret patched

  abbrev pub mismatch : Finish
  mismatch =
      failure "cannot change the cluster a user refers to"
        (failed "cannot change the cluster a user refers to")

  unfoldable pub check_user_managed :
      Bool → Object UserSpec → Cluster → Exec Finish (Object UserSpec)
  check_user_managed update_status o cluster = elim o.status.managed_cluster [
    | some uid ↦ if not (uid == cluster.uid) then raise mismatch else pure o
    | none ↦
        if update_status
        then or_return (λ e. "failed to update status: " <> sv.error_text e)
            (update_object_status sv (λ o. record o.status { managed_cluster = some cluster.uid }))
        else pure o
  ]

  abbrev pub finish_user : Result Error (Unit {0}) → Finish
  finish_user (ok tt) = record { reason = ""; result = again_in 30; error = none }
  finish_user (err e) = record {
    reason = "failed to get update user with Opensearch API";
    result = again_in 30;
    error = some e;
  }

  abbrev pub password_of : Object UserSpec → Secret → Exec Finish String
  password_of o secret = elim (value_at o.spec.password_key secret.entries) [
    | none ↦
        raise (failure "" (failed ("key " <> (o.spec.password_key <> " does not exist in secret"))))
    | some p ↦ pure p
  ]

  unfoldable pub sync_user : Object UserSpec → Exec Finish Finish
  sync_user o = do
    secret ← or_return (λ _. "failed to get user secret") (manage_password_secret o)
    password ← password_of o secret
    let wanted = user_request o password secret
    update ←
        or_return (λ _. "failed to get user status from Opensearch API")
          (should_update_user o.name wanted)
    if not update then leave "" (again_in 30) else (do
      r ← or_return (λ _. "") (attempt (create_or_update_user o.name wanted))
      pure (finish_user r))

  unfoldable pub reconcile_user_in : Bool → Object UserSpec → Cluster → Exec Finish Finish
  reconcile_user_in update_status o cluster = do
    o ← check_user_managed update_status o cluster
    if not (cluster.status.phase == "RUNNING")
        then leave "waiting for opensearch cluster status to be running" (again_in 10)
        else (do
          or_return (λ _. "error creating opensearch client") (create_client sv)
          sync_user o)

  unfoldable pub reconcile_user_body : Bool → Object UserSpec → Exec Finish Finish
  reconcile_user_body update_status o = do
    cluster ←
        or_return (λ _. "error fetching opensearch cluster")
          (fetch_opensearch_cluster sv o.opensearch_ref)
    elim cluster [
      | none ↦ leave "waiting for opensearch cluster to exist" (again_in 10)
      | some cluster ↦ reconcile_user_in update_status o cluster
    ]

  unfoldable pub reconcile_user : Bool → Object UserSpec → M Finish
  reconcile_user update_status o = do
    f ← (λ w. settled (reconcile_user_body update_status o w))
    if update_status
        then (do attempt (update_object_status sv (λ o. user_state f o.status)); pure f)
        else pure f

  unfoldable pub delete_user_object : Object UserSpec → M (Unit {0})
  delete_user_object o = do
    cluster ← fetch_opensearch_cluster sv o.opensearch_ref
    elim cluster [
      | none ↦ pure tt
      | some c ↦ if c.terminating then pure tt else (do
        create_client sv
        exist ← user_exists o.name
        if not exist then pure tt else (do
          matches ← user_uid_matches o.name o.uid
          if not matches then pure tt else delete_user o.name))
    ]
