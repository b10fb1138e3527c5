-- ===== src/Tests/Shards.antt =====
-- The questions on shards and on the health at concrete inputs.
use opensearch_k8s_operator.Prelude.{◌≡◌, refl, true, List, [], ◌∷◌, String, All}
use opensearch_k8s_operator.Text.{scan_int, number_prefix, digits_value}
use opensearch_k8s_operator.Text.Trim.{Spaceless}
use opensearch_k8s_operator.Text.{is_space}
use opensearch_k8s_operator.Api.{Shard, AllocationExplain}
use opensearch_k8s_operator.Exec.{ok}
use opensearch_k8s_operator.Services.{Services}
use opensearch_k8s_operator.Gateway.Shards.{
  has_shards_on_node, check_pod_safe_to_delete, count_on_node, detect_shard_stuck_version_mismatch,
  stuck_by_version, has_node_version_mismatch, blocked_by_version,
}
use opensearch_k8s_operator.Gateway.Shards.Nodes.{moving_from}
use opensearch_k8s_operator.Gateway.Shards.Counting.{check_pod_safe_to_delete-replicas}
use opensearch_k8s_operator.Gateway.Shards.Moving.{check_pod_safe_to_delete-moving}
use opensearch_k8s_operator.Gateway.Health.{check_cluster_status_for_restart}
use opensearch_k8s_operator.Gateway.Health.Ready.{Quiet, check_cluster_status_for_restart-Quiet}
use opensearch_k8s_operator.Tests.Data.{services, shard, green, start}

abbrev stuck : AllocationExplain
stuck = record {
  current_state = "unassigned";
  can_remain_on_current_node = "";
  can_move_to_other_node = "";
  can_allocate = "no";
  node_allocation_decisions =
      record {
        decision = "no";
        deciders = record { decider = "node_version"; decision = "NO" } ∷ [];
      }
      ∷ [];
}

abbrev node : String
node = "os-data-2"

abbrev shards : List Shard
shards = shard "r" node ∷ shard "p" "os-data-0" ∷ []

abbrev stuck_services : Services
stuck_services = record services {
  cat_shards = λ h. ok shards;
  get_allocation_explain = λ h index number primary. ok stuck;
}

check_pod_safe_to_delete-replicas_example : All (λ s. s.node_name ≡ node → s.prirep ≡ "r") shards
unfolding check_pod_safe_to_delete count_on_node detect_shard_stuck_version_mismatch
    stuck_by_version has_node_version_mismatch blocked_by_version scan_int number_prefix
    digits_value is_space
check_pod_safe_to_delete-replicas_example =
    check_pod_safe_to_delete-replicas stuck_services node start shards refl refl

node-Spaceless : Spaceless node
unfolding is_space
node-Spaceless = (refl, (refl, (refl, (refl, (refl, (refl, (refl, (refl, (refl, tt)))))))))

abbrev moving : Shard
moving = shard "p" (moving_from node "10.0.0.7 x7 os-data-0")

abbrev moving_services : Services
moving_services = record services { cat_shards = λ h. ok (moving ∷ []) }

check_pod_safe_to_delete-moving_example :
    ((has_shards_on_node moving_services node start).1 ≡ ok true)
    × ((check_pod_safe_to_delete moving_services node start).1 ≡ ok true)
check_pod_safe_to_delete-moving_example =
    check_pod_safe_to_delete-moving moving_services node moving [] start (cc) node-Spaceless refl
      (("10.0.0.7 x7 os-data-0", refl), tt)

check_cluster_status_for_restart-Quiet_example : Quiet green
unfolding check_cluster_status_for_restart
check_cluster_status_for_restart-Quiet_example =
    check_cluster_status_for_restart-Quiet services true start green "" refl refl
