-- ===== src/SecurityConfig/Command/Order.antt =====
-- What is made of a secret does not depend on the order of Go's iteration over a map.
use mathlib.Core.List.{Permᴰ}
use opensearch_k8s_operator.Prelude.{◌≡◌, refl, ap, ◌∙◌, List, [], ◌∷◌, ◌++◌, String, ◌<>◌}
use opensearch_k8s_operator.Api.{Cluster}
use opensearch_k8s_operator.Api.Objects.{Secret}
use opensearch_k8s_operator.Text.Order.{sort_strings}
use opensearch_k8s_operator.Text.Sorted.{sort_strings-Perm}
use opensearch_k8s_operator.Helpers.Security.{get_opensearch_home, version_check}
use opensearch_k8s_operator.Objects.User.{value_at}
use opensearch_k8s_operator.SecurityConfig.{SecurityServices}
use opensearch_k8s_operator.SecurityConfig.Command.{
  keys, or_empty, digest_text, single_command, single_commands, base_command,
  build_cluster_svc_host_name, mounts_of, ReconcilerContext, build_cmd_arg, checksum,
  securityconfig_subpaths,
}

-- The same map, with the keys in another order.
abbrev pub SameMap : List (String × String) → List (String × String) → Type 0
SameMap a b = Permᴰ (keys a) (keys b) × ((k : String) → value_at k a ≡ value_at k b)

digest_text-same :
    (a b : List (String × String)) (ks : List String)
    → ((k : String) → value_at k a ≡ value_at k b)
    → digest_text a ks ≡ digest_text b ks
unfolding digest_text
digest_text-same a b [] e = refl
digest_text-same a b (k ∷ ks) e = λ i. (k <> or_empty (e k i)) <> digest_text-same a b ks e i

module _ (sv : SecurityServices) where
  single_commands-same :
      (c : Cluster) (a b : List (String × String)) (ks : List String)
      → ((k : String) → value_at k a ≡ value_at k b)
      → single_commands sv c a ks ≡ single_commands sv c b ks
  unfolding single_commands
  single_commands-same c a b [] e = refl
  single_commands-same c a b (k ∷ ks) e =
      λ i. single_command sv c k (or_empty (e k i)) (single_commands-same c a b ks e i)

  -- The command, the checksum and the mounts are the same for two secrets of one name that hold one
  -- map, in whatever orders its keys come.
  pub build_cmd_arg-order :
      (c : Cluster) (context : ReconcilerContext) (a b : Secret)
      → a.name ≡ b.name
      → SameMap a.entries b.entries
      → (build_cmd_arg sv c a ≡ build_cmd_arg sv c b)
        × (checksum sv a.entries ≡ checksum sv b.entries)
        × (securityconfig_subpaths sv c a context ≡ securityconfig_subpaths sv c b context)
  unfolding build_cmd_arg checksum securityconfig_subpaths
  build_cmd_arg-order c context a b n (p, e) =
      let s = sort_strings-Perm (keys a.entries) (keys b.entries) p in
      let ks = sort_strings (keys b.entries) in
      let (http_port, _, path) = version_check sv.versions c in
      (
        ap
            (λ t.
              base_command (get_opensearch_home c) (build_cluster_svc_host_name sv c) http_port
              <> t)
            (ap (single_commands sv c a.entries) s
              ∙ single_commands-same c a.entries b.entries ks e),
        ap sv.digest (ap (digest_text a.entries) s ∙ digest_text-same a.entries b.entries ks e),
        λ i. record {
          volumes = context.volumes ++ (record { name = "securityconfig"; secret = n i } ∷ []);
          mounts = context.mounts ++ mounts_of path (s i);
        },
      )
