-- ===== src/Api.antt =====
-- The data that the operator exchanges with Kubernetes and with OpenSearch, restricted to the fields
-- that the modelled reconcilers read or write (api/opensearch.org/v1/opensearch_types.go,
-- opensearch-gateway/responses, and the Kubernetes types that they use).
pub mod Json
pub mod Objects
pub mod Tls
use opensearch_k8s_operator.Prelude.{ℕ, Bool, Option, List, String}
use opensearch_k8s_operator.Prelude.Int.{ℤ}
use opensearch_k8s_operator.Api.Tls.{Security}

-- The errors that the code tells apart: a missing object, a write conflict, any other answer of an
-- API, an error of the operator's own making, and a Go panic.
pub data Error : Type 0 where
  not_found conflict panic : Error
  api failed : String → Error

-- `storage_class` is persistence.pvc.storageClass, `none` if a pointer on the way to it is nil.
pub record NodePool : Type 0 where
  pub component : String
  pub replicas : ℤ
  pub roles : List String
  pub storage_class : Option String

pub record ComponentStatus : Type 0 where
  pub component : String
  pub status : String
  pub description : String
  pub conditions : List String

pub record ClusterStatus : Type 0 where
  pub phase : String
  pub components_status : List ComponentStatus
  pub version : String
  pub initialized : Bool
  pub admin_secret_created : Bool
  pub context_secret_created : Bool

-- An OpenSearchCluster: the metadata, the fields of the spec, and the status; `terminating` says
-- that it has a deletion timestamp.
pub record Cluster : Type 0 where
  pub name : String
  pub uid : String
  pub terminating : Bool
  pub version : String
  pub node_pools : List NodePool
  pub smart_scaler : Bool
  pub drain_data_nodes : Bool
  pub namespace : String
  pub service_name : String
  pub http_port : ℤ
  pub opensearch_home : String
  pub security : Option Security
  pub dashboards_credentials : String
  pub status : ClusterStatus

-- A StatefulSet; `replicas` is a pointer in Go, and `pool_label` is "" where the label is missing.
pub record StatefulSet : Type 0 where
  pub name : String
  pub pool_label : String
  pub replicas : Option ℤ
  pub ready_replicas : ℤ
  pub updated_replicas : ℤ
  pub available_replicas : ℤ
  pub update_revision : String
  pub current_revision : String

pub record Condition : Type 0 where
  pub kind : String
  pub status : String

pub record Container : Type 0 where
  pub ready : Bool
  pub waiting_reason : Option String

-- A pod; `revision` is its label controller-revision-hash.
pub record Pod : Type 0 where
  pub name : String
  pub terminating : Bool
  pub revision : Option String
  pub conditions : List Condition
  pub containers : List Container

-- A line of _cat/shards.
pub record Shard : Type 0 where
  pub index : String
  pub number : String
  pub prirep : String
  pub state : String
  pub node_name : String

-- _cluster/health; `indices` holds the status of each index, in the order of Go's iteration.
pub record Health : Type 0 where
  pub status : String
  pub relocating_shards : ℤ
  pub initializing_shards : ℤ
  pub unassigned_shards : ℤ
  pub indices : List (String × String)

pub record AllocationDecision : Type 0 where
  pub decider : String
  pub decision : String

pub record NodeDecision : Type 0 where
  pub decision : String
  pub deciders : List AllocationDecision

-- _cluster/allocation/explain
pub record AllocationExplain : Type 0 where
  pub current_state : String
  pub can_remain_on_current_node : String
  pub can_move_to_other_node : String
  pub can_allocate : String
  pub node_allocation_decisions : List NodeDecision

-- The result of a reconcile; the delay is in seconds.
pub record Outcome : Type 0 where
  pub requeue : Bool
  pub requeue_after : ℕ
