-- ===== src/SecurityConfig/Secrets/Kept.antt =====
-- The generated secret, made again from the same passwords and the same files.
use opensearch_k8s_operator.Prelude.{
  ◌≡◌, refl, sym, ap, ◌∙◌, Bool, true, false, not, some, String, ◌==◌, if◌then◌else◌, Bool-cases,
  Option, List, inl, inr,
}
use opensearch_k8s_operator.Api.{Cluster}
use opensearch_k8s_operator.Api.Objects.{Secret}
use opensearch_k8s_operator.Exec.{History, ok, attempt}
use opensearch_k8s_operator.Exec.Yields.{
  Yields, Yields-pure, Yields-bind, Yields-query, Yields-lift, Yields-attempt,
}
use opensearch_k8s_operator.Helpers.Security.{
  generated_security_config_secret_name, generated_dashboards_credentials_secret_name,
}
use opensearch_k8s_operator.Objects.User.{value_at, with_value}
use opensearch_k8s_operator.Objects.User.Foreign.{value_at-with_value}
use opensearch_k8s_operator.SecurityConfig.{InternalUserConfig, SecurityServices, get_secret}
use opensearch_k8s_operator.SecurityConfig.Secrets.{
  config_of, securityconfig_name, internal_users, default_securityconfig_data, merged, with_hashes,
  ensure_generated, ensure_dashboards_credentials_secret, apply_user_hashes, existing_overrides,
  base_data, build_generated_security_config_secret, secret_of, overrides_at, overrides_in,
  required, nonempty, hash_or,
}

-- The secret that holds the password of the dashboards.
abbrev pub dashboards_name : Cluster → String
dashboards_name cr =
    if not (cr.dashboards_credentials == "")
    then cr.dashboards_credentials
    else generated_dashboards_credentials_secret_name cr

-- The files of the user, if there are any, over the defaults.
abbrev pub files : Cluster → Secret → List (String × String)
files cr user =
    if not (securityconfig_name (config_of cr.security) == "")
    then merged default_securityconfig_data user.entries
    else default_securityconfig_data

-- What an earlier run has left: the files and the passwords are `config`, `admin_password` and
-- `dashboards_password`, and the generated secret holds the text of their users with two hashes.
pub record Steady (sv : SecurityServices) (cr : Cluster) (admin user dashboards generated : Secret)
    (config : InternalUserConfig)
    (admin_password dashboards_password admin_hash dashboards_hash text : String) : Type 0 where
  pub get_user :
      (h : History)
      → not (securityconfig_name (config_of cr.security) == "") ≡ true
      → sv.get_secret h (securityconfig_name (config_of cr.security)) ≡ ok user
  pub get_dashboards : (h : History) → sv.get_secret h (dashboards_name cr) ≡ ok dashboards
  pub get_generated :
      (h : History) → sv.get_secret h (generated_security_config_secret_name cr) ≡ ok generated
  pub has_admin : value_at "password" admin.entries ≡ some admin_password
  pub has_dashboards : value_at "password" dashboards.entries ≡ some dashboards_password
  pub not_empty : (dashboards_password == "") ≡ false
  pub source : String
  pub has_source : value_at internal_users (files cr user) ≡ some source
  pub decoded : sv.unmarshal source ≡ ok config
  pub was : generated.entries ≡ with_value internal_users text (files cr user)
  pub encoded : sv.marshal (with_hashes admin_hash dashboards_hash config) ≡ ok text
  pub read_back : sv.unmarshal text ≡ ok (with_hashes admin_hash dashboards_hash config)
  pub admin_hashed : (admin_hash == "") ≡ false
  pub dashboards_hashed : (dashboards_hash == "") ≡ false
  pub admin_matches : sv.matches admin_hash admin_password ≡ true
  pub dashboards_matches : sv.matches dashboards_hash dashboards_password ≡ true

module _ {sv : SecurityServices} {cr : Cluster} {admin user dashboards generated : Secret}
    {config : InternalUserConfig}
    {admin_password dashboards_password admin_hash dashboards_hash text : String}
    (s : Steady sv cr admin user dashboards generated config admin_password dashboards_password
      admin_hash dashboards_hash text) where
  base_data-Yields : Yields (files cr user) (base_data sv cr)
  unfolding base_data
  base_data-Yields = elim (Bool-cases (not (securityconfig_name (config_of cr.security) == ""))) [
    | inl e ↦ rw e (
        Yields-bind user _ (get_secret sv _) _ (Yields-query user _ _ (λ h. s.get_user h e))
          (Yields-pure _))
    | inr e ↦ rw e (Yields-pure _)
  ]

  abbrev managed : Bool
  managed = if not (cr.dashboards_credentials == "") then false else true

  dashboards_at :
      {b : Bool}
      → not (cr.dashboards_credentials == "") ≡ b
      → (h : History)
      → sv.get_secret h
          (if b then cr.dashboards_credentials else generated_dashboards_credentials_secret_name cr)
        ≡ ok dashboards
  dashboards_at e h =
      ap
        (λ c. sv.get_secret h (
          if c then cr.dashboards_credentials else generated_dashboards_credentials_secret_name cr))
        (sym e)
      ∙ s.get_dashboards h

  dashboards-Yields : Yields (dashboards, managed) (ensure_dashboards_credentials_secret sv cr)
  unfolding ensure_dashboards_credentials_secret ensure_generated
  dashboards-Yields = elim (Bool-cases (not (cr.dashboards_credentials == ""))) [
    | inl e ↦ rw e (
        Yields-bind dashboards _ (get_secret sv _) _ (Yields-query dashboards _ _ (dashboards_at e))
          (Yields-pure _))
    | inr e ↦ rw e (
        Yields-bind (ok dashboards) _ (attempt (get_secret sv _)) _
          (Yields-attempt dashboards _ (Yields-query dashboards _ _ (dashboards_at e)))
          (Yields-pure _))
  ]

  users_text : value_at internal_users generated.entries ≡ some text
  users_text =
      ap (value_at internal_users) s.was ∙ value_at-with_value internal_users text (files cr user)

  overrides-kept :
      overrides_at sv admin_password dashboards_password (value_at internal_users generated.entries)
      ≡ (admin_hash, dashboards_hash)
  unfolding with_hashes
  overrides-kept =
      ap (overrides_at sv admin_password dashboards_password) users_text
      ∙ ap (overrides_in sv admin_password dashboards_password) s.read_back
      ∙ rw s.admin_hashed
          (rw s.admin_matches (rw s.dashboards_hashed (rw s.dashboards_matches refl)))

  overrides-Yields :
      Yields
        (admin_hash, dashboards_hash)
        (existing_overrides sv admin_password dashboards_password (ok generated))
  unfolding existing_overrides
  overrides-Yields = rw overrides-kept (Yields-pure _)

  hashes-Yields :
      Yields text (
        apply_user_hashes sv s.source admin_password admin_hash dashboards_password dashboards_hash)
  unfolding apply_user_hashes
  hashes-Yields = Yields-bind config text _ _ (Yields-lift config _ s.decoded) (
      Yields-bind admin_hash text (hash_or sv admin_hash admin_password) _
        (rw s.admin_hashed (Yields-pure admin_hash))
        (Yields-bind dashboards_hash text (hash_or sv dashboards_hash dashboards_password) _
          (rw s.dashboards_hashed (Yields-pure dashboards_hash)) (Yields-lift text _ s.encoded)))

  required-Yields :
      (message v : String) (o : Option String) → o ≡ some v → Yields v (required sv message o)
  required-Yields message v o e = rw e (Yields-pure v)

  nonempty-Yields :
      (message v : String) (o : Option String)
      → o ≡ some v
      → (v == "") ≡ false
      → Yields v (nonempty sv message o)
  nonempty-Yields message v o e f = rw e (rw f (Yields-pure v))

  -- If the files and the passwords are those that the generated secret was made from, YAML reads back
  -- what it wrote, and the two hashes match the passwords, then making the secret again succeeds and
  -- gives one with the same entries.
  pub build_generated-kept :
      Yields
        (secret_of (generated_security_config_secret_name cr) generated.entries)
        (build_generated_security_config_secret sv cr admin)
  unfolding build_generated_security_config_secret
  build_generated-kept =
      let name = generated_security_config_secret_name cr in
      rw s.was (
        Yields-bind (files cr user) _ _ _ base_data-Yields (
          Yields-bind admin_password _ _ _ (required-Yields _ _ _ s.has_admin) (
            Yields-bind (dashboards, managed) _ _ _ dashboards-Yields
              (Yields-bind dashboards_password _ _ _
                (nonempty-Yields _ _ _ s.has_dashboards s.not_empty)
                (Yields-bind s.source _ _ _ (required-Yields _ _ _ s.has_source) (
                  Yields-bind (ok generated) _ (attempt (get_secret sv name)) _
                    (Yields-attempt generated _
                      (Yields-query generated _ (λ h. sv.get_secret h name) s.get_generated))
                    (Yields-bind (admin_hash, dashboards_hash) _ _ _ overrides-Yields
                      (Yields-bind text _ _ _ hashes-Yields (Yields-pure _)))))))))
