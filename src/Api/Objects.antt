-- ===== src/Api/Objects.antt =====
-- Objects that live in OpenSearch: their Kubernetes side (api/opensearch.org/v1) and what is sent to
-- the security API (opensearch-gateway/requests). Permissions have the same fields in both.
use opensearch_k8s_operator.Prelude.{Bool, Option, List, String}
use opensearch_k8s_operator.Prelude.Int.{ℤ}

pub record IndexPermission : Type 0 where
  pub index_patterns : List String
  pub document_level_security : String
  pub field_level_security : List String
  pub allowed_actions : List String
  pub masked_fields : List String

pub record TenantPermission : Type 0 where
  pub tenant_patterns : List String
  pub allowed_actions : List String

pub record RoleSpec : Type 0 where
  pub cluster_permissions : List String
  pub index_permissions : List IndexPermission
  pub tenant_permissions : List TenantPermission

pub record RoleRequest : Type 0 where
  pub cluster_permissions : List String
  pub index_permissions : List IndexPermission
  pub tenant_permissions : List TenantPermission

pub record TenantSpec : Type 0 where
  pub description : String

pub record TenantRequest : Type 0 where
  pub description : String

pub record ActionGroupSpec : Type 0 where
  pub allowed_actions : List String
  pub kind : String
  pub description : String

pub record ActionGroupRequest : Type 0 where
  pub allowed_actions : List String
  pub kind : String
  pub description : String

-- A map of attributes is a list of pairs.
pub record UserSpec : Type 0 where
  pub password_secret : String
  pub password_key : String
  pub security_roles : List String
  pub backend_roles : List String
  pub attributes : List (String × String)

pub record UserRequest : Type 0 where
  pub password : String
  pub security_roles : List String
  pub backend_roles : List String
  pub attributes : List (String × String)

pub record RoleMapping : Type 0 where
  pub backend_roles : List String
  pub hosts : List String
  pub users : List String

pub record BindingSpec : Type 0 where
  pub roles : List String
  pub users : List String
  pub backend_roles : List String

-- The body of a request to the security API.
pub data Body : Type 0 where
  role : RoleRequest → Body
  tenant : TenantRequest → Body
  action_group : ActionGroupRequest → Body
  user : UserRequest → Body
  mapping : RoleMapping → Body

-- The status of an object; `existing` is ExistingRole, ExistingTenant or ExistingActionGroup, and the
-- three lists are those of a role binding. A kind of object that has no such field leaves it empty.
pub record ObjectStatus : Type 0 where
  pub state : String
  pub reason : String
  pub existing : Option Bool
  pub managed_cluster : Option String
  pub provisioned_roles : List String
  pub provisioned_users : List String
  pub provisioned_backend_roles : List String

-- An object with the part of its spec that is its kind's own.
pub record Object (S : Type 0) : Type 0 where
  pub name : String
  pub uid : String
  pub opensearch_ref : String
  pub spec : S
  pub status : ObjectStatus

-- A secret; the values are texts.
pub record Secret : Type 0 where
  pub name : String
  pub resource_version : String
  pub annotations : List (String × String)
  pub entries : List (String × String)

-- A volume that shows a secret, and a file of it that is mounted.
pub record Volume : Type 0 where
  pub name : String
  pub secret : String

pub record Mount : Type 0 where
  pub name : String
  pub path : String
  pub sub_path : String

-- The Kubernetes job that applies a security configuration: its annotation with the checksum, what
-- the pod runs and sees, and the counts of its status.
pub record Job : Type 0 where
  pub name : String
  pub checksum_annotation : Option String
  pub admin_secret : String
  pub admin_ca_secret : String
  pub command : String
  pub volumes : List Volume
  pub mounts : List Mount
  pub active : ℤ
  pub succeeded : ℤ
  pub failed : ℤ

-- A write that is no business of nodes.
pub data Write : Type 0 where
  -- the resource, the name and the body
  object_put : String → String → Body → Write
  object_removed : String → String → Write
  object_status_put : ObjectStatus → Write
  secret_put : Secret → Write
  job_created : Job → Write
  job_removed : String → Write
