-- ===== src/SecurityConfig/Secrets.antt =====
-- The secrets that the security configuration stands on: the credentials of the administrator and of
-- the dashboards, and the generated configuration (pkg/helpers/helpers.go). The metadata and the type
-- of a secret are left out, and StringData and Data are one list of texts.
pub mod Kept
use opensearch_k8s_operator.Prelude.{
  Bool, true, false, not, ◌&&◌, Option, none, some, List, [], ◌∷◌, ◌++◌, String, ◌<>◌, ◌==◌,
  if◌then◌else◌,
}
use opensearch_k8s_operator.Api.{Error, not_found, failed, Cluster}
use opensearch_k8s_operator.Api.Objects.{Secret}
use opensearch_k8s_operator.Api.Tls.{SecurityConfig, Security}
use opensearch_k8s_operator.Exec.{Result, ok, err, M, pure, raise, ◌>>=◌, ◌>>◌, attempt, lift}
use opensearch_k8s_operator.Helpers.Roles.{contains_string}
use opensearch_k8s_operator.Helpers.Security.{
  is_security_plugin_enabled, generated_security_config_secret_name,
  generated_admin_credentials_secret_name, generated_dashboards_credentials_secret_name,
}
use opensearch_k8s_operator.Objects.User.{value_at, with_value}
use opensearch_k8s_operator.SecurityConfig.{
  UserEntry, InternalUserConfig, SecurityServices, get_secret, put_secret, random_text,
  hash_password,
}

abbrev pub config_of : Option Security → Option SecurityConfig
config_of none = none
config_of (some s) = s.config

-- The names of the secrets that the user gives, "" where there is none.
abbrev pub admin_credentials_name : Option SecurityConfig → String
admin_credentials_name none = ""
admin_credentials_name (some c) = c.admin_credentials_secret

abbrev pub securityconfig_name : Option SecurityConfig → String
securityconfig_name none = ""
securityconfig_name (some c) = c.securityconfig_secret

abbrev pub secret_of : String → List (String × String) → Secret
secret_of name entries = record {
  name = name;
  resource_version = "";
  annotations = [];
  entries = entries;
}

abbrev pub internal_users : String
internal_users = "internal_users.yml"

-- securityconfigdefaults/internal_users.yml, which is embedded.
abbrev pub default_internal_users : String
default_internal_users =
    "_meta:\n  type: \"internalusers\"\n  config_version: 2\nadmin:\n  hash: \"\"\n  reserved: true\n  backend_roles:\n    - \"admin\"\n  description: \"Demo admin user\"\nkibanaserver:\n  hash: \"\"\n  reserved: true\n  description: \"Demo user for the OpenSearch Dashboards server\"\n"

unfoldable pub default_securityconfig_data : List (String × String)
default_securityconfig_data = (internal_users, default_internal_users) ∷ []

-- The user's files take the place of the defaults.
unfoldable pub merged : List (String × String) → List (String × String) → List (String × String)
merged base [] = base
merged base ((k, v) ∷ kvs) = merged (with_value k v base) kvs

abbrev pub blank_user : UserEntry
blank_user = record { hash = ""; reserved = false; backend_roles = []; description = "" }

abbrev or_blank : Option UserEntry → UserEntry
or_blank none = blank_user
or_blank (some u) = u

abbrev dashboards_description : String → String
dashboards_description d = if d == "" then "Demo user for the OpenSearch Dashboards server" else d

-- The part of applyUserHashes between the decoding and the encoding, once the hashes are there.
unfoldable pub with_hashes : String → String → InternalUserConfig → InternalUserConfig
with_hashes admin_hash dashboards_hash config =
    let admin = config.admin in
    let kibanaserver = or_blank config.kibanaserver in
    record config {
      admin = record admin {
        hash = admin_hash;
        reserved = true;
        backend_roles =
            if contains_string admin.backend_roles "admin"
            then admin.backend_roles
            else admin.backend_roles ++ ("admin" ∷ []);
      };
      kibanaserver = some (record kibanaserver {
        hash = dashboards_hash;
        reserved = true;
        description = dashboards_description kibanaserver.description;
      });
    }

module _ (sv : SecurityServices) where
  abbrev pub after_get : M Secret → Result Error Secret → M (Secret × Bool)
  after_get make (ok s) = pure (s, true)
  after_get make (err e) = elim e [ not_found ↦ do s ← make; pure (s, true) | e ↦ raise e ]

  -- The secret that the operator administers: made if it is not there, and then read again.
  unfoldable pub ensure_generated : String → String → (String → String) → M (Secret × Bool)
  ensure_generated name username password_for = do
    found ← attempt (get_secret sv name)
    after_get
        (do
          random_password ← random_text sv
          put_secret sv (
              secret_of name
                (("username", username) ∷ ("password", password_for random_password) ∷ []))
          get_secret sv name)
        found

  abbrev given : String → M (Secret × Bool)
  given name = do s ← get_secret sv name; pure (s, false)

  -- The flag says whether the operator administers the secret.
  unfoldable pub ensure_admin_credentials_secret : Cluster → M (Secret × Bool)
  ensure_admin_credentials_secret cr =
      let name = admin_credentials_name (config_of cr.security) in
      if not (name == "")
      then given name
      else ensure_generated (generated_admin_credentials_secret_name cr) "admin" (λ r. r)

  unfoldable pub ensure_dashboards_credentials_secret : Cluster → M (Secret × Bool)
  ensure_dashboards_credentials_secret cr =
      if not (cr.dashboards_credentials == "")
      then given cr.dashboards_credentials
      else ensure_generated (generated_dashboards_credentials_secret_name cr) "kibanaserver"
          (λ r. if is_security_plugin_enabled sv.versions cr then r else "kibanaserver")

  abbrev hash_or : String → String → M String
  hash_or override password =
      if not (override == "") then pure override else hash_password sv password

  unfoldable pub apply_user_hashes : String → String → String → String → String → M String
  apply_user_hashes text admin_password admin_override dashboards_password dashboards_override = do
    config ← lift (sv.unmarshal text)
    admin_hash ← hash_or admin_override admin_password
    dashboards_hash ← hash_or dashboards_override dashboards_password
    lift (sv.marshal (with_hashes admin_hash dashboards_hash config))

  -- A hash that is there and fits the password is kept.
  abbrev kept_hash : String → String → String
  kept_hash hash password = if not (hash == "") && sv.matches hash password then hash else ""

  abbrev overrides_in : String → String → Result Error InternalUserConfig → String × String
  overrides_in admin_password dashboards_password (err e) = ("", "")
  overrides_in admin_password dashboards_password (ok config) = (
    kept_hash config.admin.hash admin_password,
    elim config.kibanaserver [ none ↦ "" | some u ↦ kept_hash u.hash dashboards_password ],
  )

  abbrev overrides_at : String → String → Option String → String × String
  overrides_at admin_password dashboards_password none = ("", "")
  overrides_at admin_password dashboards_password (some text) =
      overrides_in admin_password dashboards_password (sv.unmarshal text)

  -- What the generated secret that is there says of the two hashes.
  unfoldable pub existing_overrides : String → String → Result Error Secret → M (String × String)
  existing_overrides admin_password dashboards_password (ok s) =
      pure (overrides_at admin_password dashboards_password (value_at internal_users s.entries))
  existing_overrides admin_password dashboards_password (err e) = elim e [
    | not_found ↦ pure ("", "")
    | e ↦ raise e
  ]

  unfoldable pub base_data : Cluster → M (List (String × String))
  base_data cr =
      let name = securityconfig_name (config_of cr.security) in
      if not (name == "")
      then (do s ← get_secret sv name; pure (merged default_securityconfig_data s.entries))
      else pure default_securityconfig_data

  abbrev required : String → Option String → M String
  required message none = raise (failed message)
  required message (some v) = pure v

  abbrev nonempty : String → Option String → M String
  nonempty message none = raise (failed message)
  nonempty message (some v) = if v == "" then raise (failed message) else pure v

  unfoldable pub build_generated_security_config_secret : Cluster → Secret → M Secret
  build_generated_security_config_secret cr admin_secret = do
    data' ← base_data cr
    admin_password ←
        required "admin credentials secret missing password field"
          (value_at "password" admin_secret.entries)
    (dashboards_secret, _) ← ensure_dashboards_credentials_secret cr
    dashboards_password ←
        nonempty "dashboards credentials secret missing password field"
          (value_at "password" dashboards_secret.entries)
    users ← required "securityconfig missing internal_users.yml" (value_at internal_users data')
    existing ← attempt (get_secret sv (generated_security_config_secret_name cr))
    (admin_override, dashboards_override) ←
        existing_overrides admin_password dashboards_password existing
    hashed ←
        apply_user_hashes users admin_password admin_override dashboards_password
          dashboards_override
    pure (
        secret_of (generated_security_config_secret_name cr)
          (with_value internal_users hashed data'))
