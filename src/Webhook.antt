-- ===== src/Webhook.antt =====
-- The validation of a cluster at admission (webhook/opensearch_cluster_webhook.go). `none` admits it.
pub mod Unique
pub mod Admits
pub mod Storage
use opensearch_k8s_operator.Prelude.{
  ℕ, suc, Bool, true, false, not, ◌&&◌, Option, none, some, List, [], ◌∷◌, String, ◌<>◌, ◌==◌,
  if◌then◌else◌,
}
use opensearch_k8s_operator.Text.{show_ℕ}
use opensearch_k8s_operator.Api.{Error, failed, NodePool, Cluster}
use opensearch_k8s_operator.Api.Tls.{TlsTransport, TlsHttp, TlsConfig, Security}
use opensearch_k8s_operator.Helpers.Roles.{contains_string}
use opensearch_k8s_operator.Helpers.Security.{
  Versions, option_or, tls_of, security_change_version, is_security_plugin_enabled,
}
use opensearch_k8s_operator.SecurityConfig.Secrets.{config_of}
use opensearch_k8s_operator.SecurityConfig.Reconcile.{admin_secret_of}

abbrev duplicate_message : String → String
duplicate_message component =
    "duplicate node pool component name '"
    <> (component
        <> "': each node pool must have a unique component name (used for K8s resource naming)")

abbrev storage_message : String → String → String → String
storage_message component old_class new_class =
    "storage class cannot be changed for node pool '"
    <> (component
        <> ("' (was '"
            <> (old_class
                <> ("', attempting to change to '"
                    <> (new_class
                        <> "'). Storage class is immutable in StatefulSets. Please delete the cluster and recreate it with the new storage class")))))

-- The loop, with the index and the names seen so far.
unfoldable pub unique_from : ℕ → List String → List NodePool → Option Error
unique_from i seen [] = none
unique_from i seen (np ∷ nps) =
    let rest = unique_from (suc i) (np.component ∷ seen) nps in
    if np.component == ""
    then some (failed ("node pool at index " <> (show_ℕ i <> " has an empty component name")))
    else if contains_string seen np.component
    then some (failed (duplicate_message np.component))
    else rest

unfoldable pub validate_node_pool_component_uniqueness : Cluster → Option Error
unfolding unique_from
validate_node_pool_component_uniqueness cluster = unique_from 0 [] cluster.node_pools

-- The map of the old node pools by name, in which a later one takes the place of an earlier one.
unfoldable pub old_node_pool : String → List NodePool → Option NodePool
old_node_pool component [] = none
old_node_pool component (np ∷ nps) = elim (old_node_pool component nps) [
  | some later ↦ some later
  | none ↦ if np.component == component then some np else none
]

abbrev pub class_of : NodePool → String
class_of np = option_or "" np.storage_class

unfoldable pub storage_from : List NodePool → List NodePool → Option Error
storage_from old [] = none
storage_from old (np ∷ nps) =
    let rest = storage_from old nps in
    elim (old_node_pool np.component old) [
      | none ↦ rest
      | some old_np ↦
          if not (class_of old_np == class_of np)
          then some (failed (storage_message np.component (class_of old_np) (class_of np)))
          else rest
    ]

unfoldable pub validate_storage_class_changes : Cluster → Cluster → Option Error
validate_storage_class_changes old_cluster new_cluster =
    storage_from old_cluster.node_pools new_cluster.node_pools

-- TLS that is switched on must have a certificate from somewhere.
unfoldable pub transport_problem : Option TlsTransport → Option Error
transport_problem none = none
transport_problem (some t) =
    if option_or false t.enabled && not t.generate && t.secret == ""
    then some (failed "transport TLS is enabled but neither generate nor secret is provided")
    else none

unfoldable pub http_problem : Option TlsHttp → Option Error
http_problem none = none
http_problem (some t) =
    if option_or false t.enabled && not t.generate && t.secret == ""
    then some (failed "HTTP TLS is enabled but neither generate nor secret is provided")
    else none

abbrev pub http_generates : Option TlsHttp → Bool
http_generates none = false
http_generates (some t) = t.generate

abbrev pub transport_generates : Option TlsTransport → Bool
transport_generates none = false
transport_generates (some t) = t.generate

-- The next check, if this one found nothing.
abbrev pub else_check : Option Error → Option Error → Option Error
else_check none next = next
else_check (some e) next = some e

module _ (v : Versions) where
  -- The certificate of the administrator, once the security plugin is on.
  unfoldable pub admin_problem : Cluster → TlsConfig → Option Error
  admin_problem cluster tls =
      if not (is_security_plugin_enabled v cluster)
      then none
      else if not (admin_secret_of (config_of cluster.security) == "")
      then none
      else if security_change_version v cluster
      then (if http_generates tls.http
          then none
          else some (failed "admin secret name is not provided but http.tls generate is not true"))
      else if transport_generates tls.transport
      then none
      else some (failed "admin secret name is not provided but transport.tls generate is not true")

  unfoldable pub tls_problem : Cluster → Option TlsConfig → Option Error
  tls_problem cluster none = none
  tls_problem cluster (some tls) =
      else_check (transport_problem tls.transport)
        (else_check (http_problem tls.http) (admin_problem cluster tls))

  unfoldable pub validate_tls_config : Cluster → Option Error
  unfolding tls_problem
  validate_tls_config cluster = tls_problem cluster (tls_of cluster.security)

  unfoldable pub validate_create : Cluster → Option Error
  validate_create cluster =
      else_check (validate_node_pool_component_uniqueness cluster) (validate_tls_config cluster)

  unfoldable pub validate_update : Cluster → Cluster → Option Error
  validate_update old_cluster new_cluster =
      if new_cluster.terminating
      then none
      else else_check (validate_node_pool_component_uniqueness new_cluster) (
          else_check (validate_storage_class_changes old_cluster new_cluster)
            (validate_tls_config new_cluster))
