-- ===== src/Tests/Data.antt =====
-- A cluster with two node pools, and services that accept every write.
use opensearch_k8s_operator.Prelude.{
  ℕ, zero, suc, ◌-◌, true, false, Option, none, some, [], ◌∷◌, String, ltb,
}
use opensearch_k8s_operator.Prelude.Int.{pos}
use opensearch_k8s_operator.Api.{
  ComponentStatus, Cluster, NodePool, StatefulSet, Pod, Shard, Health, not_found,
}
use opensearch_k8s_operator.Api.Json.{Value, null, text, other, object, Fields, end}
use opensearch_k8s_operator.Exec.{
  read, pod_deleted, sts_applied, sts_removed, sts_status_put, status_put, settings_put, written,
  History, World, ok, err,
}
use opensearch_k8s_operator.Services.{Services}
use opensearch_k8s_operator.Gateway.Settings.{find_by_path, exclude_path}
use opensearch_k8s_operator.Upgrade.Version.{Semver}

abbrev pub masters : NodePool
masters = record {
  component = "masters";
  replicas = pos 3;
  roles = "cluster_manager" ∷ [];
  storage_class = none;
}

abbrev pub data_pool : NodePool
data_pool = record {
  component = "data";
  replicas = pos 2;
  roles = "data" ∷ [];
  storage_class = none;
}

abbrev pub scaler_drained : ComponentStatus
scaler_drained = record {
  component = "Scaler";
  status = "Drained";
  description = "data";
  conditions = "os-data-2" ∷ [];
}

abbrev pub data_upgraded : ComponentStatus
data_upgraded = record {
  component = "Upgrader";
  status = "Upgraded";
  description = "data";
  conditions = [];
}

abbrev pub cluster : Cluster
cluster = record {
  name = "os";
  uid = "uid";
  terminating = false;
  version = "111";
  node_pools = masters ∷ data_pool ∷ [];
  smart_scaler = true;
  drain_data_nodes = true;
  namespace = "default";
  service_name = "os";
  http_port = pos 0;
  opensearch_home = "";
  security = none;
  dashboards_credentials = "";
  status = record {
    phase = "RUNNING";
    components_status = scaler_drained ∷ data_upgraded ∷ [];
    version = "11";
    initialized = true;
    admin_secret_created = false;
    context_secret_created = false;
  };
}

abbrev pub set_of : String → StatefulSet
set_of name = record {
  name = name;
  pool_label = "data";
  replicas = some (pos 3);
  ready_replicas = pos 3;
  updated_replicas = pos 2;
  available_replicas = pos 3;
  update_revision = "new";
  current_revision = "old";
}

abbrev pub ready_pod : String → Pod
ready_pod name = record {
  name = name;
  terminating = false;
  revision = some "old";
  conditions = record { kind = "Ready"; status = "True" } ∷ [];
  containers = [];
}

-- A setting that is set to null is removed.
unfoldable pub cleaned : Option Value → Fields → Fields
cleaned none t = t
cleaned (some null) t = end
cleaned (some (text s)) t = t
cleaned (some other) t = t
cleaned (some (object fs)) t = t

-- The transient settings that were written last.
unfoldable pub last_settings : History → Fields
last_settings [] = end
last_settings (settings_put p t true ∷ es) = cleaned (find_by_path t exclude_path) t
last_settings (settings_put p t false ∷ es) = last_settings es
last_settings (read s ∷ es) = last_settings es
last_settings (pod_deleted n b ∷ es) = last_settings es
last_settings (sts_applied s b ∷ es) = last_settings es
last_settings (sts_removed n b ∷ es) = last_settings es
last_settings (sts_status_put s b ∷ es) = last_settings es
last_settings (status_put s b ∷ es) = last_settings es
last_settings (written x b ∷ es) = last_settings es

abbrev pub shard : String → String → Shard
shard prirep node_name = record {
  index = "logs";
  number = "0";
  prirep = prirep;
  state = "STARTED";
  node_name = node_name;
}

abbrev pub green : Health
green = record {
  status = "green";
  relocating_shards = pos 0;
  initializing_shards = pos 0;
  unassigned_shards = pos 0;
  indices = [];
}

abbrev pub services : Services
services = record {
  get_stateful_set = λ h name. ok (set_of name);
  list_stateful_sets = λ h. ok (set_of "os-data" ∷ []);
  list_pods = λ h component. ok (ready_pod "a" ∷ ready_pod "b" ∷ ready_pod "c" ∷ []);
  get_pod = λ h name. ok (ready_pod name);
  delete_pod = λ h name. none;
  apply_stateful_set = λ h sts. none;
  remove_stateful_set = λ h name. none;
  reconcile_result = λ h. none;
  get_cluster = λ h. ok cluster;
  put_status = λ h status. none;
  put_sts_status = λ h sts. none;
  create_client = λ h. none;
  get_health = λ h. ok green;
  get_cluster_settings = λ h. ok (last_settings h);
  get_flat_allocation_enable = λ h. ok "all";
  put_cluster_settings = λ h persistent transient. none;
  cat_indices = λ h. ok [];
  cat_shards = λ h. ok (shard "p" "os-data-0" ∷ []);
  cat_named_indices_shards = λ h indices. ok [];
  index_exists = λ h index. ok false;
  get_allocation_explain = λ h index number primary. err not_found;
}

-- The same cluster while OpenSearch is red.
abbrev pub red : Health
red = record {
  status = "red";
  relocating_shards = pos 0;
  initializing_shards = pos 0;
  unassigned_shards = pos 2;
  indices = [];
}

abbrev pub red_services : Services
red_services = record services { get_health = λ h. ok red }

abbrev pub start : World
start = record { history = []; components = cluster.status.components_status }

-- Versions with a major number alone, written with as many ones.
unfoldable pub ones : ℕ → String
ones zero = ""
ones (suc n) = String.◌∷◌ "1" (ones n)

unfoldable pub letters : String → ℕ
letters String.[] = 0
letters (String.◌∷◌ c s) = suc (letters s)

abbrev pub majors : Semver
majors = record {
  Version = ℕ;
  new_version = λ s. some (letters s);
  less_than = ltb;
  inc_major = suc;
  to_string = ones;
  check = λ constraint v. some (ltb v (letters constraint - 2));
}
