-- ===== src/Objects/Role/Pending.antt =====
-- The state PENDING of a role.
use opensearch_k8s_operator.Prelude.{Bool}
use opensearch_k8s_operator.Api.Objects.{RoleSpec, Object}
use opensearch_k8s_operator.Exec.Emits.{Emits}
use opensearch_k8s_operator.Objects.{ObjectServices}
use opensearch_k8s_operator.Objects.Statuses.{Fresh}
use opensearch_k8s_operator.Objects.Managed.Pending
use opensearch_k8s_operator.Objects.Managed.Pending.{NotPending, WritesNoPending}
use opensearch_k8s_operator.Objects.Role.{role_kind, reconcile_role}

-- If no copy of the role that is read has the state PENDING, then a run of the reconciler writes no
-- status with that state, on any of its branches, those that wait for the cluster included.
pub reconcile_role-NotPending :
    (sv : ObjectServices RoleSpec) (u : Bool) (o : Object RoleSpec)
    → Fresh sv (λ o. NotPending o.status)
    → Emits WritesNoPending (reconcile_role sv u o)
unfolding reconcile_role
reconcile_role-NotPending sv u o fresh =
    Pending.reconcile-NotPending role_kind sv u o (λ r e. e) fresh
