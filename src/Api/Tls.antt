-- ===== src/Api/Tls.antt =====
-- spec.security of a cluster (api/opensearch.org/v1/opensearch_types.go). A reference to a secret is
-- the secret's name, "" where it is not set.
use opensearch_k8s_operator.Prelude.{Bool, Option, String}

pub record TlsTransport : Type 0 where
  pub enabled : Option Bool
  pub generate : Bool
  pub secret : String
  pub ca_secret : String

pub record TlsHttp : Type 0 where
  pub enabled : Option Bool
  pub generate : Bool
  pub secret : String
  pub ca_secret : String

pub record TlsConfig : Type 0 where
  pub transport : Option TlsTransport
  pub http : Option TlsHttp

pub record SecurityConfig : Type 0 where
  pub securityconfig_secret : String
  pub admin_secret : String
  pub admin_credentials_secret : String

pub record Security : Type 0 where
  pub tls : Option TlsConfig
  pub config : Option SecurityConfig
