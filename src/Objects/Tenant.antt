-- ===== src/Objects/Tenant.antt =====
-- TenantReconciler (pkg/reconcilers/tenant.go).
use opensearch_k8s_operator.Prelude.{Bool, nat_eq}
use opensearch_k8s_operator.Api.Objects.{tenant, TenantSpec, TenantRequest, Object}
use opensearch_k8s_operator.Exec.{M}
use opensearch_k8s_operator.Objects.{ObjectServices}
use opensearch_k8s_operator.Objects.Finish.{Finish}
use opensearch_k8s_operator.Objects.Managed
use opensearch_k8s_operator.Objects.Managed.{Kind}

unfoldable pub tenant_request : TenantSpec → TenantRequest
tenant_request spec = record { description = spec.description }

abbrev pub tenant_kind : Kind TenantSpec
tenant_kind = record {
  resource = "tenants";
  request = λ spec. tenant (tenant_request spec);
  zero_body = tenant (record { description = "" });
  created = λ result. nat_eq result.requeue_after 30;
  exists_reason = "tenant already exists in Opensearch; not modifying";
  mismatch_reason = "cannot change the cluster an tenant refers to";
  exists_failed = "failed to get tenant status from Opensearch API";
  should_update_failed = "failed to get tenant status from Opensearch API";
  update_failed = "failed to update tenant with Opensearch API";
}

unfoldable pub reconcile_tenant : ObjectServices TenantSpec → Bool → Object TenantSpec → M Finish
reconcile_tenant sv update_status o = Managed.reconcile tenant_kind sv update_status o

unfoldable pub delete_tenant : ObjectServices TenantSpec → Object TenantSpec → M (Unit {0})
delete_tenant sv o = Managed.delete tenant_kind sv o
