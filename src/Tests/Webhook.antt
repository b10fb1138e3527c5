-- ===== src/Tests/Webhook.antt =====
-- The validation of clusters.
use opensearch_k8s_operator.Prelude.{◌≡◌, refl, ◌↔◌, false, true, none, some, inl, inr, [], ◌∷◌}
use opensearch_k8s_operator.Prelude.Int.{pos}
use opensearch_k8s_operator.Api.{Cluster}
use opensearch_k8s_operator.Helpers.Security.{
  Versions, tls_of, is_security_plugin_enabled, security_change_version, is_http_tls_enabled,
}
use opensearch_k8s_operator.Helpers.Roles.{contains_string}
use opensearch_k8s_operator.Webhook.{
  class_of, old_node_pool, storage_from, validate_create, validate_update,
  validate_node_pool_component_uniqueness, validate_storage_class_changes, validate_tls_config,
  transport_problem, http_problem, admin_problem,
}
use opensearch_k8s_operator.Webhook.Unique.{components, Distinct}
use opensearch_k8s_operator.Webhook.Admits.{SoundTls, validate_create_iff}
use opensearch_k8s_operator.Webhook.Storage.{validate_update-keeps}
use opensearch_k8s_operator.Tests.Data.{cluster, data_pool}

abbrev version_two : Versions
version_two = record {
  semver_check = λ c v. some true;
  segments = λ v. some (pos 2 ∷ []);
  version_check = λ c v. some true;
}

-- HTTP with generated certificates, and two node pools.
abbrev secured : Cluster
secured = record cluster {
  security = some (record {
    tls = some (record {
      transport = none;
      http = some (record { enabled = some true; generate = true; secret = ""; ca_secret = "" });
    });
    config = none;
  });
}

validate_create_iff_example : (validate_create version_two secured ≡ none) ↔ (
    Distinct (components secured.node_pools)
    × SoundTls version_two secured (tls_of secured.security))
validate_create_iff_example = validate_create_iff version_two secured

secured-admitted : validate_create version_two secured ≡ none
unfolding validate_create validate_node_pool_component_uniqueness contains_string
    validate_tls_config transport_problem http_problem admin_problem is_security_plugin_enabled
    security_change_version is_http_tls_enabled
secured-admitted = refl

-- The same without generated certificates is refused.
bare-refused : ¬ (
    validate_create version_two (record secured {
      security = some (record {
        tls = some (record {
          transport = none;
          http = some (record { enabled = none; generate = false; secret = ""; ca_secret = "" });
        });
        config = none;
      });
    })
    ≡ none)
unfolding validate_create validate_node_pool_component_uniqueness contains_string
    validate_tls_config transport_problem http_problem admin_problem is_security_plugin_enabled
    security_change_version is_http_tls_enabled
bare-refused e = cc

-- HTTP whose field `enabled` is unset, with no certificates, but a secret for the administrator.
abbrev unset : Cluster
unset = record secured {
  security = some (record {
    tls = some (record {
      transport = none;
      http = some (record { enabled = none; generate = false; secret = ""; ca_secret = "" });
    });
    config = some (record {
      securityconfig_secret = "";
      admin_secret = "admin-cert";
      admin_credentials_secret = "";
    });
  });
}

-- TLS counts as on for this cluster, and yet it is admitted without certificates.
unset-admitted : (is_http_tls_enabled unset ≡ true) × (validate_create version_two unset ≡ none)
unfolding validate_create validate_node_pool_component_uniqueness contains_string
    validate_tls_config transport_problem http_problem admin_problem is_security_plugin_enabled
    security_change_version is_http_tls_enabled
unset-admitted = (refl, refl)

validate_update-keeps_example : class_of data_pool ≡ class_of data_pool
unfolding validate_update validate_storage_class_changes storage_from old_node_pool
    validate_node_pool_component_uniqueness contains_string validate_tls_config transport_problem
    http_problem admin_problem is_security_plugin_enabled security_change_version
    is_http_tls_enabled
validate_update-keeps_example =
    validate_update-keeps version_two secured secured data_pool data_pool refl refl (inr (inl refl))
      refl
