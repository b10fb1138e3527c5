-- ===== src/Tests/Objects.antt =====
-- Objects of OpenSearch: services that answer from what was written.
use mathlib.Core.Path.{subst}
use opensearch_k8s_operator.Prelude.{◌≡◌, refl, sym, ap, true, false, none, some, [], ◌∷◌, eq_iff}
use opensearch_k8s_operator.Api.{Cluster, Error, not_found}
use opensearch_k8s_operator.Api.Objects.{
  Write, RoleSpec, BindingSpec, UserSpec, UserRequest, user, mapping, ObjectStatus, Object,
}
use opensearch_k8s_operator.Exec.{read, written, World, Result, ok, err, pure, on_conflict}
use opensearch_k8s_operator.Exec.Emits.{Emits}
use opensearch_k8s_operator.Objects.{
  ObjectServices, write_error, try_object_status, update_object_status,
}
use opensearch_k8s_operator.Objects.Managed
use opensearch_k8s_operator.Objects.Managed.{object_state, reconcile_body}
use opensearch_k8s_operator.Objects.Managed.Untouched.{KeepsObjects, Existed, reconcile-preexisting}
use opensearch_k8s_operator.Objects.Managed.Pending.{NotPending, WritesNoPending}
use opensearch_k8s_operator.Objects.Managed.Stored.{Store, stored, answer, ensured_at}
use opensearch_k8s_operator.Objects.Managed.Ensures.{reconcile-ensures}
use opensearch_k8s_operator.Objects.Role.{role_kind, reconcile_role}
use opensearch_k8s_operator.Objects.Role.Pending.{reconcile_role-NotPending}
use opensearch_k8s_operator.Objects.Binding.{reconcile_binding}
use opensearch_k8s_operator.Objects.Binding.Stored.{AcceptsMappings}
use opensearch_k8s_operator.Objects.Binding.Each.{at}
use opensearch_k8s_operator.Objects.Binding.Whole.{Binds, reconcile_binding-Binds}
use opensearch_k8s_operator.Objects.User.{value_at, carries, reconcile_user, delete_user_object}
use opensearch_k8s_operator.Objects.User.Foreign.{KeepsUsers, reconcile_user-foreign}
use opensearch_k8s_operator.Tests.Data.{cluster}

abbrev object_of : {S : Type 0} → S → ObjectStatus → Object S
object_of spec status = record {
  name = "readers";
  uid = "object-uid";
  opensearch_ref = "os";
  spec = spec;
  status = status;
}

abbrev blank : ObjectStatus
blank = record {
  state = "";
  reason = "";
  existing = none;
  managed_cluster = none;
  provisioned_roles = [];
  provisioned_users = [];
  provisioned_backend_roles = [];
}

abbrev role_spec : RoleSpec
role_spec = record {
  cluster_permissions = "read" ∷ [];
  index_permissions = [];
  tenant_permissions = [];
}

abbrev services_of : {S : Type 0} → Store → Result Error Cluster → Object S → ObjectServices S
services_of base c o = record {
  get_cluster = λ h n. c;
  get_object = λ h. ok o;
  put_object_status = λ h s. none;
  get_secret = λ h n. err not_found;
  put_secret = λ h s. none;
  applied_secret = λ h s. s;
  create_client = λ h. none;
  get_security = λ h r n. ok (answer (stored base h r n) n);
  put_security = λ h r n b. ok (record { status_code = 201; bodies = ok [] });
  delete_security = λ h r n. ok (record { status_code = 200; bodies = ok [] });
  equal = λ a b. false;
  error_text = λ e. "error";
}

abbrev nothing : Store
nothing r n = none

abbrev world : World
world = record { history = []; components = [] }

ok_inj : {A : Type 0} {a b : A} → ◌≡◌ {A = Result Error A} (ok a) (ok b) → a ≡ b
ok_inj e = cc

-- A role that existed before.
abbrev seen : Object RoleSpec
seen = object_of role_spec (record blank { existing = some true })

reconcile-preexisting_example :
    Emits KeepsObjects
      (Managed.reconcile role_kind (services_of nothing (ok cluster) seen) true seen)
    × (Managed.delete role_kind (services_of nothing (ok cluster) seen) seen ≡ pure tt)
reconcile-preexisting_example =
    reconcile-preexisting role_kind (services_of nothing (ok cluster) seen) true seen
      (λ h r e. subst Existed (ok_inj e) refl) refl

-- A role whose cluster is missing.
abbrev unseen : Object RoleSpec
unseen = object_of role_spec blank

blank-NotPending : NotPending blank
blank-NotPending e = let h = (eq_iff "" "PENDING").1 e in cc

reconcile_role-NotPending_example :
    Emits WritesNoPending (reconcile_role (services_of nothing (err not_found) unseen) true unseen)
reconcile_role-NotPending_example =
    reconcile_role-NotPending (services_of nothing (err not_found) unseen) true unseen
      (λ h r e. subst (λ r. NotPending r.status) (ok_inj e) blank-NotPending)

-- Such a run does write a status, with the state CREATED.
waiting-created :
    (w : World)
    → (reconcile_role (services_of nothing (err not_found) unseen) true unseen w).0.history ≡ (
        written
          (Write.object_status_put (record blank {
            state = "CREATED";
            reason = "waiting for opensearch cluster to exist";
          }))
          true
        ∷ read "Get"
        ∷ read "GetOpenSearchCluster"
        ∷ w.history)
unfolding reconcile_role Managed.reconcile reconcile_body update_object_status try_object_status
    object_state on_conflict
waiting-created w = refl

-- A role that is the operator's own.
abbrev ours : Object RoleSpec
ours = object_of role_spec (record blank { existing = some false; managed_cluster = some "uid" })

reconcile-ensures_example :
    stored nothing
      (Managed.reconcile role_kind
        (services_of nothing (ok cluster) ours)
        true
        ours
        world).0.history
      "roles"
      "readers"
    ≡ ensured_at role_kind (λ a b. false) ours (stored nothing []) "roles" "readers"
unfolding write_error
reconcile-ensures_example =
    reconcile-ensures role_kind (services_of nothing (ok cluster) ours) nothing true ours cluster
      world (λ h r n. refl) (λ h n b. refl) (λ h. refl) (λ h. refl) refl refl refl "roles" "readers"

-- A binding that gives up a role.
abbrev binding : Object BindingSpec
binding =
    object_of (record { roles = "admin" ∷ []; users = "ann" ∷ []; backend_roles = [] })
      (record blank {
        managed_cluster = some "uid";
        provisioned_roles = "writer" ∷ [];
        provisioned_users = "bob" ∷ [];
      })

abbrev mappings : Store
mappings r n =
    some (mapping (record { users = "bob" ∷ "eve" ∷ []; hosts = []; backend_roles = [] }))

binding_accepts : AcceptsMappings (services_of mappings (ok cluster) binding)
unfolding write_error
binding_accepts = record { puts = λ h n b. refl; removals = λ h n. refl }

reconcile_binding-Binds_example : Binds binding (at mappings world) (
    at mappings
      (reconcile_binding (services_of mappings (ok cluster) binding) true binding world).0)
reconcile_binding-Binds_example =
    reconcile_binding-Binds (services_of mappings (ok cluster) binding) mappings true binding
      cluster world (λ h r n. refl) binding_accepts (λ h. refl) (λ h. refl) refl refl

-- A user that somebody else made.
abbrev foreign_user : UserRequest
foreign_user = record {
  password = "";
  security_roles = [];
  backend_roles = [];
  attributes = ("k8s-uid", "other-uid") ∷ [];
}

abbrev wanted : Object UserSpec
wanted =
    object_of
      (record {
        password_secret = "secret";
        password_key = "password";
        security_roles = [];
        backend_roles = [];
        attributes = [];
      })
      (record blank { managed_cluster = some "uid" })

abbrev user_services : ObjectServices UserSpec
user_services = record (services_of nothing (ok cluster) wanted) {
  get_security = λ h r n. ok (answer (some (user foreign_user)) n);
}

foreign_user_foreign : carries "object-uid" foreign_user ≡ false
unfolding carries value_at
foreign_user_foreign = refl

reconcile_user-foreign_example :
    Emits KeepsUsers (reconcile_user user_services "default" true wanted)
    × Emits KeepsUsers (delete_user_object user_services "default" wanted)
reconcile_user-foreign_example =
    reconcile_user-foreign user_services "default" true wanted foreign_user (λ h. refl)
      foreign_user_foreign
      (λ h r e. record {
        name = sym (ap (λ o. o.name) (ok_inj e));
        uid = sym (ap (λ o. o.uid) (ok_inj e));
      })
