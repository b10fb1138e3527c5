-- ===== src/Webhook/Admits.antt =====
-- Which clusters are admitted when they are made.
use opensearch_k8s_operator.Prelude.{
  ◌≡◌, refl, Bool, true, false, not, ◌&&◌, ◌↔◌, ◌⊎◌, inl, inr, Option, none, some, String, ◌==◌,
  if◌then◌else◌,
}
use opensearch_k8s_operator.Api.{Error, Cluster}
use opensearch_k8s_operator.Api.Tls.{TlsTransport, TlsHttp, TlsConfig}
use opensearch_k8s_operator.Helpers.Security.{
  Versions, option_or, tls_of, security_change_version, is_security_plugin_enabled,
}
use opensearch_k8s_operator.SecurityConfig.Secrets.{config_of}
use opensearch_k8s_operator.SecurityConfig.Reconcile.{admin_secret_of}
use opensearch_k8s_operator.Webhook.{
  transport_problem, http_problem, http_generates, transport_generates, else_check, admin_problem,
  tls_problem, validate_tls_config, validate_create, validate_node_pool_component_uniqueness,
}
use opensearch_k8s_operator.Webhook.Unique.{
  components, Distinct, validate_node_pool_component_uniqueness_iff,
}

-- If the field `enabled` is set to true then the certificates are generated or given. Nothing is
-- asked for if the field is unset.
abbrev pub Sourced : Option Bool → Bool → String → Type 0
Sourced enabled generate secret = enabled ≡ some true → (generate ≡ true) ⊎ ((secret == "") ≡ false)

abbrev pub SoundTransport : Option TlsTransport → Type 0
SoundTransport none = Unit {0}
SoundTransport (some t) = Sourced t.enabled t.generate t.secret

abbrev pub SoundHttp : Option TlsHttp → Type 0
SoundHttp none = Unit {0}
SoundHttp (some t) = Sourced t.enabled t.generate t.secret

-- With the security plugin, the certificate of the administrator is given, or is generated by the
-- layer that the version of OpenSearch asks for.
abbrev pub HasAdmin : Versions → Cluster → TlsConfig → Type 0
HasAdmin v cluster tls =
    is_security_plugin_enabled v cluster ≡ true
    → ((admin_secret_of (config_of cluster.security) == "") ≡ false)
      ⊎ ((if security_change_version v cluster
            then http_generates tls.http
            else transport_generates tls.transport)
          ≡ true)

abbrev pub SoundTls : Versions → Cluster → Option TlsConfig → Type 0
SoundTls v cluster none = Unit {0}
SoundTls v cluster (some tls) =
    SoundTransport tls.transport × SoundHttp tls.http × HasAdmin v cluster tls

else_check_iff : (o p : Option Error) → (else_check o p ≡ none) ↔ ((o ≡ none) × (p ≡ none))
else_check_iff none p = (λ e. (refl, e), λ e. e.1)
else_check_iff (some x) p = (λ e. absurd (cc), λ e. absurd (let y = e.0 in cc))

sourced_iff :
    (o : Option Bool) (g e : Bool) (m : Error)
    → ((if option_or false o && not g && e then some m else none) ≡ none)
      ↔ (o ≡ some true → (g ≡ true) ⊎ (e ≡ false))
sourced_iff none g e m = (λ p b. absurd (cc), λ f. refl)
sourced_iff (some false) g e m = (λ p b. absurd (cc), λ f. refl)
sourced_iff (some true) true e m = (λ p b. inl refl, λ f. refl)
sourced_iff (some true) false false m = (λ p b. inr refl, λ f. refl)
sourced_iff (some true) false true m =
    (λ p. absurd (cc), λ f. absurd (elim (f refl) [ inl x ↦ cc | inr y ↦ cc ]))

transport_problem_iff : (o : Option TlsTransport) → (transport_problem o ≡ none) ↔ SoundTransport o
unfolding transport_problem
transport_problem_iff none = (λ e. tt, λ s. refl)
transport_problem_iff (some t) = sourced_iff t.enabled t.generate (t.secret == "") _

http_problem_iff : (o : Option TlsHttp) → (http_problem o ≡ none) ↔ SoundHttp o
unfolding http_problem
http_problem_iff none = (λ e. tt, λ s. refl)
http_problem_iff (some t) = sourced_iff t.enabled t.generate (t.secret == "") _

admin_test_iff :
    (p a b h t : Bool) (m n : Error)
    → ((if not p
          then none
          else if not a
          then none
          else if b
          then (if h then none else some m)
          else if t
          then none
          else some n)
        ≡ none)
      ↔ (p ≡ true → (a ≡ false) ⊎ ((if b then h else t) ≡ true))
admin_test_iff false a b h t m n = (λ e p. absurd (cc), λ f. refl)
admin_test_iff true false b h t m n = (λ e p. inl refl, λ f. refl)
admin_test_iff true true true true t m n = (λ e p. inr refl, λ f. refl)
admin_test_iff true true true false t m n =
    (λ e. absurd (cc), λ f. absurd (elim (f refl) [ inl x ↦ cc | inr y ↦ cc ]))
admin_test_iff true true false h true m n = (λ e p. inr refl, λ f. refl)
admin_test_iff true true false h false m n =
    (λ e. absurd (cc), λ f. absurd (elim (f refl) [ inl x ↦ cc | inr y ↦ cc ]))

module _ (v : Versions) where
  tls_problem_iff :
      (cluster : Cluster) (o : Option TlsConfig)
      → (tls_problem v cluster o ≡ none) ↔ SoundTls v cluster o
  unfolding tls_problem admin_problem
  tls_problem_iff cluster none = (λ e. tt, λ s. refl)
  tls_problem_iff cluster (some tls) =
      let t = transport_problem_iff tls.transport in
      let h = http_problem_iff tls.http in
      let a =
        admin_test_iff (is_security_plugin_enabled v cluster)
          (admin_secret_of (config_of cluster.security) == "") (security_change_version v cluster)
          (http_generates tls.http) (transport_generates tls.transport) _ _ in
      let c = else_check_iff (transport_problem tls.transport) _ in
      let d = else_check_iff (http_problem tls.http) (admin_problem v cluster tls) in
      (
        λ e. (t.0 (c.0 e).0, h.0 (d.0 (c.0 e).1).0, a.0 (d.0 (c.0 e).1).1),
        λ s. let (x, y, z) = s in c.1 (t.1 x, d.1 (h.1 y, a.1 z)),
      )

  -- A new cluster is admitted exactly if no node pool has an empty name and no two have the same, and,
  -- where the TLS settings are given: a layer whose field `enabled` is set to true has certificates
  -- that are generated or given (a layer whose field is unset needs none), and, if the security plugin
  -- is enabled, the certificate of the administrator is given or generated by the layer that counts
  -- for the version: HTTP from 2.0.0 on, and transport before.
  pub validate_create_iff :
      (cluster : Cluster)
      → (validate_create v cluster ≡ none)
        ↔ (Distinct (components cluster.node_pools) × SoundTls v cluster (tls_of cluster.security))
  unfolding validate_create validate_tls_config
  validate_create_iff cluster =
      let c =
        else_check_iff (validate_node_pool_component_uniqueness cluster)
          (validate_tls_config v cluster) in
      let u = validate_node_pool_component_uniqueness_iff cluster in
      let t = tls_problem_iff cluster (tls_of cluster.security) in
      (λ e. (u.0 (c.0 e).0, t.0 (c.0 e).1), λ s. c.1 (u.1 s.0, t.1 s.1))
