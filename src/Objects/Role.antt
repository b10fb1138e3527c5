-- ===== src/Objects/Role.antt =====
-- RoleReconciler (pkg/reconcilers/role.go).
pub mod Pending
use opensearch_k8s_operator.Prelude.{Bool, []}
use opensearch_k8s_operator.Api.Objects.{Body, role, RoleSpec, RoleRequest, Object}
use opensearch_k8s_operator.Exec.{M}
use opensearch_k8s_operator.Objects.{ObjectServices}
use opensearch_k8s_operator.Objects.Finish.{Finish}
use opensearch_k8s_operator.Objects.Managed
use opensearch_k8s_operator.Objects.Managed.{Kind}

-- The loops over the permissions copy them.
unfoldable pub role_request : RoleSpec → RoleRequest
role_request spec = record {
  cluster_permissions = spec.cluster_permissions;
  index_permissions = spec.index_permissions;
  tenant_permissions = spec.tenant_permissions;
}

abbrev pub role_kind : Kind RoleSpec
role_kind = record {
  resource = "roles";
  request = λ spec. role (role_request spec);
  zero_body =
      role (record { cluster_permissions = []; index_permissions = []; tenant_permissions = [] });
  created = λ result. result.requeue;
  exists_reason = "role already exists in Opensearch; not modifying";
  mismatch_reason = "cannot change the cluster a role refers to";
  exists_failed = "failed to get user status from Opensearch API";
  should_update_failed = "failed to get role status from Opensearch API";
  update_failed = "failed to update role with Opensearch API";
}

unfoldable pub reconcile_role : ObjectServices RoleSpec → Bool → Object RoleSpec → M Finish
reconcile_role sv update_status o = Managed.reconcile role_kind sv update_status o

unfoldable pub delete_role : ObjectServices RoleSpec → Object RoleSpec → M (Unit {0})
delete_role sv o = Managed.delete role_kind sv o
