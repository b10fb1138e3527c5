-- ===== src/Helpers/Security.antt =====
-- What the helpers say of the security of a cluster (pkg/helpers/helpers.go, reconcile-helpers.go,
-- securityconfig_defaults.go and constants.go). The two libraries that parse versions are parameters.
use opensearch_k8s_operator.Prelude.{
  Bool, true, false, Option, none, some, List, [], ◌∷◌, String, ◌<>◌, ◌==◌, if◌then◌else◌,
}
use opensearch_k8s_operator.Prelude.Int.{ℤ, pos, ◌<ℤ◌}
use opensearch_k8s_operator.Text.{show_ℤ}
use opensearch_k8s_operator.Text.Prefix.{trim_right_of}
use opensearch_k8s_operator.Api.{Cluster}
use opensearch_k8s_operator.Api.Tls.{TlsTransport, TlsHttp, TlsConfig, Security}

-- github.com/Masterminds/semver and github.com/hashicorp/go-version; `none` is an error of a parser.
-- A check takes the constraint and the version.
pub record Versions : Type 0 where
  pub semver_check : String → String → Option Bool
  pub segments : String → Option (List ℤ)
  pub version_check : String → String → Option Bool

abbrev pub option_or {ℓ} : {A : Type ℓ} → A → Option A → A
option_or d none = d
option_or d (some a) = a

abbrev pub http_of : Option TlsConfig → Option TlsHttp
http_of none = none
http_of (some tls) = tls.http

abbrev pub transport_of : Option TlsConfig → Option TlsTransport
transport_of none = none
transport_of (some tls) = tls.transport

abbrev pub tls_of : Option Security → Option TlsConfig
tls_of none = none
tls_of (some s) = s.tls

unfoldable pub is_http_tls_enabled : Cluster → Bool
is_http_tls_enabled cluster = elim (http_of (tls_of cluster.security)) [
  | none ↦ false
  | some tls_config ↦ option_or true tls_config.enabled
]

unfoldable pub is_transport_tls_enabled : Cluster → Bool
is_transport_tls_enabled cluster = elim (transport_of (tls_of cluster.security)) [
  | none ↦ false
  | some tls_config ↦ option_or true tls_config.enabled
]

-- GeneralConfig.GetOpenSearchHome
unfoldable pub get_opensearch_home : Cluster → String
get_opensearch_home instance' =
    if instance'.opensearch_home == ""
    then "/usr/share/opensearch"
    else trim_right_of 47 instance'.opensearch_home

unfoldable pub dns_of_service : Cluster → String
dns_of_service cr = cr.service_name <> ("." <> cr.namespace)

-- The argument is the environment variable DNS_BASE.
unfoldable pub cluster_dns_base : Option String → String
cluster_dns_base none = "cluster.local"
cluster_dns_base (some env) = if env == "" then "cluster.local" else env

unfoldable pub generated_security_config_secret_name : Cluster → String
generated_security_config_secret_name cr = cr.name <> "-security-config-generated"

unfoldable pub generated_admin_credentials_secret_name : Cluster → String
generated_admin_credentials_secret_name cr = cr.name <> "-admin-password"

unfoldable pub generated_dashboards_credentials_secret_name : Cluster → String
generated_dashboards_credentials_secret_name cr = cr.name <> "-dashboards-password"

-- The first three segments, zero where there are fewer, and none where there is none at all.
abbrev base_version : Option (List ℤ) → Option String
base_version none = none
base_version (some []) = none
base_version (some (a ∷ [])) = some (show_ℤ a <> ".0.0")
base_version (some (a ∷ b ∷ [])) = some (show_ℤ a <> ("." <> (show_ℤ b <> ".0")))
base_version (some (a ∷ b ∷ c ∷ _)) = some (show_ℤ a <> ("." <> (show_ℤ b <> ("." <> show_ℤ c))))

module _ (v : Versions) where
  unfoldable pub check_version_constraint : Cluster → String → Bool → Bool
  check_version_constraint cluster constraint default_on_error =
      option_or default_on_error (v.semver_check constraint cluster.version)

  unfoldable pub security_change_version : Cluster → Bool
  unfolding check_version_constraint
  security_change_version cluster = check_version_constraint cluster ">=2.0.0" true

  unfoldable pub is_security_plugin_enabled : Cluster → Bool
  is_security_plugin_enabled cr =
      if security_change_version cr then is_http_tls_enabled cr else is_transport_tls_enabled cr

  -- The name of the referenced secret.
  unfoldable pub tls_ca_secret_ref : Cluster → String
  tls_ca_secret_ref cluster =
      if security_change_version cluster
      then elim (http_of (tls_of cluster.security)) [ none ↦ "" | some http ↦ http.ca_secret ]
      else elim (transport_of (tls_of cluster.security)) [ none ↦ "" | some t ↦ t.ca_secret ]

  unfoldable pub is_version_2_or_higher : Cluster → Bool
  is_version_2_or_higher instance' = elim (base_version (v.segments instance'.version)) [
    | none ↦ false
    | some base ↦ option_or false (v.version_check ">= 2.0" base)
  ]

  -- The HTTP port, the port for the security configuration, and its folder.
  unfoldable pub version_check : Cluster → ℤ × ℤ × String
  version_check instance' =
      let http_port = if pos 0 <ℤ instance'.http_port then instance'.http_port else pos 9200 in
      let home = get_opensearch_home instance' in
      if is_version_2_or_higher instance'
      then (http_port, http_port, home <> "/config/opensearch-security")
      else (http_port, pos 9300, home <> "/plugins/opensearch-security/securityconfig")
