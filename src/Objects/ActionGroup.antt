-- ===== src/Objects/ActionGroup.antt =====
-- ActionGroupReconciler (pkg/reconcilers/actiongroup.go).
use opensearch_k8s_operator.Prelude.{Bool, [], nat_eq}
use opensearch_k8s_operator.Api.Objects.{action_group, ActionGroupSpec, ActionGroupRequest, Object}
use opensearch_k8s_operator.Exec.{M}
use opensearch_k8s_operator.Objects.{ObjectServices}
use opensearch_k8s_operator.Objects.Finish.{Finish}
use opensearch_k8s_operator.Objects.Managed
use opensearch_k8s_operator.Objects.Managed.{Kind}

-- The type and the description are copied where they are not empty, which the zero value is.
unfoldable pub action_group_request : ActionGroupSpec → ActionGroupRequest
action_group_request spec = record {
  allowed_actions = spec.allowed_actions;
  kind = spec.kind;
  description = spec.description;
}

abbrev pub action_group_kind : Kind ActionGroupSpec
action_group_kind = record {
  resource = "actiongroups";
  request = λ spec. action_group (action_group_request spec);
  zero_body = action_group (record { allowed_actions = []; kind = ""; description = "" });
  created = λ result. nat_eq result.requeue_after 30;
  exists_reason = "actiongroup already exists in Opensearch; not modifying";
  mismatch_reason = "cannot change the cluster an actiongroup refers to";
  exists_failed = "failed to get actiongroup status from Opensearch API";
  should_update_failed = "failed to get actiongroup status from Opensearch API";
  update_failed = "failed to update actiongroup with Opensearch API";
}

unfoldable pub reconcile_action_group :
    ObjectServices ActionGroupSpec → Bool → Object ActionGroupSpec → M Finish
reconcile_action_group sv update_status o = Managed.reconcile action_group_kind sv update_status o

unfoldable pub delete_action_group :
    ObjectServices ActionGroupSpec → Object ActionGroupSpec → M (Unit {0})
delete_action_group sv o = Managed.delete action_group_kind sv o
