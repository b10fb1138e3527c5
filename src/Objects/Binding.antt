-- ===== src/Objects/Binding.antt =====
-- UserRoleBindingReconciler (pkg/reconcilers/userrolebinding.go) and the calls on role mappings of
-- opensearch-gateway/services/os_security_service.go. Events for the recorder are left out.
pub mod Members
pub mod Stored
pub mod Each
pub mod Bound
pub mod Whole
use opensearch_k8s_operator.Prelude.{
  Bool, true, false, not, ◌&&◌, ◌||◌, Option, none, some, List, [], ◌∷◌, ◌++◌, String, ◌<>◌, ◌==◌,
  nat_eq, length, if◌then◌else◌,
}
use opensearch_k8s_operator.Api.{Error, failed, Cluster}
use opensearch_k8s_operator.Api.Objects.{
  Body, role, tenant, action_group, user, mapping, RoleMapping, BindingSpec, ObjectStatus, Object,
}
use opensearch_k8s_operator.Exec.{
  Result, ok, err, Exec, M, pure, raise, ◌>>=◌, ◌>>◌, query, attempt,
}
use opensearch_k8s_operator.Helpers.Roles.{contains_string, diff_slice}
use opensearch_k8s_operator.Objects.{
  Response, ObjectServices, bad_answer, is_error, named, object_exists, create_or_update_object,
  delete_object, fetch_opensearch_cluster, create_client, update_object_status,
}
use opensearch_k8s_operator.Objects.Finish.{
  Finish, at_once, again_in, failure, or_return, leave, is_error_set, settled,
}

-- A loop that ends at the first error.
unfoldable pub for_each :
    {E : Type 0} → (String → Exec E (Unit {0})) → List String → Exec E (Unit {0})
for_each m [] = pure tt
for_each {E} m (r ∷ rs) = let rest : Exec E (Unit {0}) = λ w. for_each m rs w in do m r; rest

abbrev pub no_mapping : RoleMapping
no_mapping = record { backend_roles = []; hosts = []; users = [] }

-- The decoder makes mappings of what the API answers about mappings.
unfoldable pub mapping_of : Body → RoleMapping
mapping_of (mapping m) = m
mapping_of (role r) = no_mapping
mapping_of (tenant t) = no_mapping
mapping_of (action_group g) = no_mapping
mapping_of (user u) = no_mapping

abbrev mapping_in : String → Result Error (List (String × Body)) → Result Error RoleMapping
mapping_in name (err e) = err e
mapping_in name (ok bodies) = ok (mapping_of (named (mapping no_mapping) name bodies))

unfoldable pub mapping_answer : String → Result Error Response → Result Error RoleMapping
mapping_answer name (err e) = err e
mapping_answer name (ok r) = if is_error r then err bad_answer else mapping_in name r.bodies

abbrev pub is_empty : List String → Bool
is_empty [] = true
is_empty (x ∷ xs) = false

abbrev pub some_left : RoleMapping → Bool
some_left m = not (is_empty m.users) || not (is_empty m.hosts) || not (is_empty m.backend_roles)

-- The mapping that reconcileExistingMapping makes of an old one, and its test that nothing changed.
unfoldable pub extended : BindingSpec → List String → List String → RoleMapping → RoleMapping
extended spec users backend_roles old = record old {
  users = diff_slice old.users users ++ diff_slice spec.users old.users;
  backend_roles =
      diff_slice old.backend_roles backend_roles ++ diff_slice spec.backend_roles old.backend_roles;
}

unfoldable pub unchanged : BindingSpec → List String → List String → RoleMapping → Bool
unchanged spec users backend_roles old =
    is_empty (diff_slice spec.users old.users)
    && is_empty (diff_slice spec.backend_roles old.backend_roles)
    && nat_eq (length (diff_slice old.users users)) (length old.users)
    && nat_eq (length (diff_slice old.backend_roles backend_roles)) (length old.backend_roles)

-- The mapping that removeObjectsFromMapping makes of an old one, and its test.
unfoldable pub reduced : List String → List String → RoleMapping → RoleMapping
reduced users backend_roles old = record old {
  users = diff_slice old.users users;
  backend_roles = diff_slice old.backend_roles backend_roles;
}

unfoldable pub untouched_by : List String → List String → RoleMapping → Bool
untouched_by users backend_roles old =
    nat_eq (length (diff_slice old.users users)) (length old.users)
    && not (is_empty (diff_slice old.users users))
    && nat_eq (length (diff_slice old.backend_roles backend_roles)) (length old.backend_roles)
    && not (is_empty (diff_slice old.backend_roles backend_roles))

unfoldable pub removed_roles : List String → List String → List String
removed_roles roles [] = []
removed_roles roles (r ∷ provisioned) =
    let rest = removed_roles roles provisioned in if contains_string roles r then rest else r ∷ rest

-- The change that the deferred function makes to the status.
unfoldable pub binding_state : Finish → Object BindingSpec → ObjectStatus
binding_state f o =
    let a = record o.status { reason = f.reason } in
    let b = if is_error_set f.error then record a { state = "ERROR" } else a in
    let c =
      if f.result.requeue && nat_eq f.result.requeue_after 10
      then record b { state = "PENDING" }
      else b in
    if not (is_error_set f.error) && nat_eq f.result.requeue_after 30
    then record c {
      provisioned_roles = o.spec.roles;
      provisioned_backend_roles = o.spec.backend_roles;
      provisioned_users = o.spec.users;
      state = "CREATED";
    }
    else c

module _ (sv : ObjectServices BindingSpec) where
  abbrev pub role_mapping_exists : String → M Bool
  role_mapping_exists name = object_exists sv "rolesmapping" name

  abbrev pub fetch_existing_role_mapping : String → M RoleMapping
  fetch_existing_role_mapping name =
      query "GetSecurityResource" (λ h. mapping_answer name (sv.get_security h "rolesmapping" name))

  abbrev pub create_or_update_role_mapping : String → RoleMapping → M (Unit {0})
  create_or_update_role_mapping name m = create_or_update_object sv "rolesmapping" name (mapping m)

  abbrev pub delete_role_mapping : String → M (Unit {0})
  delete_role_mapping name = delete_object sv "rolesmapping" name

  -- An empty mapping is removed.
  unfoldable pub save_mapping : String → RoleMapping → M (Unit {0})
  save_mapping name m =
      if some_left m then create_or_update_role_mapping name m else delete_role_mapping name

  unfoldable pub reconcile_existing_mapping :
      BindingSpec → String → List String → List String → M (Unit {0})
  reconcile_existing_mapping spec name users backend_roles = do
    old ← fetch_existing_role_mapping name
    if unchanged spec users backend_roles old
        then pure tt
        else save_mapping name (extended spec users backend_roles old)

  unfoldable pub remove_objects_from_mapping : String → List String → List String → M (Unit {0})
  remove_objects_from_mapping name users backend_roles = do
    old ← fetch_existing_role_mapping name
    if untouched_by users backend_roles old
        then pure tt
        else save_mapping name (reduced users backend_roles old)

  -- What happens to a role that the spec no longer names.
  unfoldable pub clear_role : ObjectStatus → String → Exec Finish (Unit {0})
  clear_role status r = do
    exists ←
        or_return (λ _. "failed to get role mapping status from Opensearch API")
          (role_mapping_exists r)
    if exists
        then or_return (λ _. "failed to update existing role mapping")
            (remove_objects_from_mapping r status.provisioned_users
              status.provisioned_backend_roles)
        else pure tt

  -- What happens to one role of the spec.
  unfoldable pub bind_role : Object BindingSpec → String → Exec Finish (Unit {0})
  bind_role o r = do
    exists ←
        or_return (λ _. "failed to get role mapping status from Opensearch API")
          (role_mapping_exists r)
    if exists
        then or_return (λ _. "failed to update existing role mapping")
            (reconcile_existing_mapping o.spec r
              (diff_slice o.status.provisioned_users o.spec.users)
              (diff_slice o.status.provisioned_backend_roles o.spec.backend_roles))
        else or_return (λ _. "failed to create role mapping")
            (create_or_update_role_mapping r
              (record { users = o.spec.users; hosts = []; backend_roles = o.spec.backend_roles }))

  abbrev mismatch : Finish
  mismatch =
      failure "cannot change the cluster a userrolebinding refers to"
        (failed "cannot change the cluster a userrolebinding refers to")

  unfoldable pub check_binding_managed :
      Bool → Object BindingSpec → Cluster → Exec Finish (Object BindingSpec)
  check_binding_managed update_status o cluster = elim o.status.managed_cluster [
    | some uid ↦ if not (uid == cluster.uid) then raise mismatch else pure o
    | none ↦
        if update_status
        then or_return (λ e. "failed to update status: " <> sv.error_text e)
            (update_object_status sv (λ o. record o.status { managed_cluster = some cluster.uid }))
        else pure o
  ]

  unfoldable pub reconcile_binding_in : Bool → Object BindingSpec → Cluster → Exec Finish Finish
  reconcile_binding_in update_status o cluster = do
    o ← check_binding_managed update_status o cluster
    if not (cluster.status.phase == "RUNNING")
        then leave "waiting for opensearch cluster status to be running" (again_in 10)
        else (do
          or_return (λ _. "error creating opensearch client") (create_client sv)
          for_each (clear_role o.status) (removed_roles o.spec.roles o.status.provisioned_roles)
          for_each (bind_role o) o.spec.roles
          leave "" (again_in 30))

  unfoldable pub reconcile_binding_body : Bool → Object BindingSpec → Exec Finish Finish
  reconcile_binding_body update_status o = do
    cluster ←
        or_return (λ _. "error fetching opensearch cluster")
          (fetch_opensearch_cluster sv o.opensearch_ref)
    elim cluster [
      | none ↦ leave "waiting for opensearch cluster to exist" (again_in 10)
      | some cluster ↦ reconcile_binding_in update_status o cluster
    ]

  unfoldable pub reconcile_binding : Bool → Object BindingSpec → M Finish
  reconcile_binding update_status o = do
    f ← (λ w. settled (reconcile_binding_body update_status o w))
    if update_status
        then (do attempt (update_object_status sv (binding_state f)); pure f)
        else pure f

  -- What Delete does to one role.
  unfoldable pub remove_from_role : ObjectStatus → String → M (Unit {0})
  remove_from_role status r = do
    exist ← role_mapping_exists r
    if not exist
        then pure tt
        else remove_objects_from_mapping r status.provisioned_users status.provisioned_backend_roles

  unfoldable pub delete_binding : Object BindingSpec → M (Unit {0})
  delete_binding o = do
    cluster ← fetch_opensearch_cluster sv o.opensearch_ref
    elim cluster [
      | none ↦ pure tt
      | some c ↦ if c.terminating then pure tt else (do
        create_client sv
        for_each (remove_from_role o.status) o.status.provisioned_roles)
    ]
