-- ===== src/Gateway/Shards/Counting.antt =====
-- What CheckPodSafeToDelete counts.
use opensearch_k8s_operator.Prelude.{
  ℕ, ◌+◌, ◌≤◌, ◌≡◌, refl, Bool, true, false, not, ◌&&◌, List, [], ◌∷◌, String, ◌==◌, eq_iff, nat_eq,
  if◌then◌else◌, All, arith,
}
use opensearch_k8s_operator.Api.{Error, Shard}
use opensearch_k8s_operator.Exec.{read, World, Result, ok, err, continue, log, pure}
use opensearch_k8s_operator.Exec.Returns.{
  Post, Returns, Returns-pure, Returns-if, Returns-bind, Returns-weaken,
}
use opensearch_k8s_operator.Services.{Services}
use opensearch_k8s_operator.Gateway.Shards.{
  detect_shard_stuck_version_mismatch, count_on_node, check_pod_safe_to_delete,
}

-- The shards of a node that are no replicas.
unfoldable primaries : String → List Shard → ℕ
primaries n [] = 0
primaries n (s ∷ shards) =
    let rest = primaries n shards in
    if s.node_name == n && not (s.prirep == "r") then rest + 1 else rest

stuck_le :
    (b : Bool) (n k c d p : ℕ) → n + 1 + d + p ≤ c + (if b then k + 1 else k) → n + d + p ≤ c + k
stuck_le true n k c d p h = omega (arith, h)
stuck_le false n k c d p h = omega (arith, h)

ok_inj : {A : Type 0} {a b : A} → ◌≡◌ {A = Result Error A} (ok a) (ok b) → a ≡ b
ok_inj e = cc

module _ (sv : Services) (name : String) where
  count_on_node-Returns :
      (n k : ℕ) (shards : List Shard)
      → Returns (λ c. n + c.1 + primaries name shards ≤ c.0 + k) (count_on_node sv name n k shards)
  unfolding count_on_node primaries
  count_on_node-Returns n k [] = Returns-pure (n, k) (omega arith)
  count_on_node-Returns n k (s ∷ shards) =
      Returns-if (s.node_name == name) _ _
        (λ e. rw e (
          Returns-if (s.prirep == "r") _ _
            (λ f. rw f (
              Returns-bind (detect_shard_stuck_version_mismatch sv s) _ (λ b.
                Returns-weaken
                  (λ w. count_on_node sv name (n + 1) (if b then k + 1 else k) shards w)
                  (λ c h. stuck_le b n k c.0 c.1 (primaries name shards) h)
                  (record {
                    at = (count_on_node-Returns (n + 1) (if b then k + 1 else k) shards).at;
                  }))))
            (λ f. rw f (
              Returns-weaken (λ w. count_on_node sv name (n + 1) k shards w)
                (λ c h. omega (arith, h))
                (record { at = (count_on_node-Returns (n + 1) k shards).at })))))
        (λ e. rw e (record { at = (count_on_node-Returns n k shards).at }))

no_primary_step :
    (b c : Bool) (p : ℕ) → (if b && not c then p + 1 else p) ≡ 0 → (b ≡ true → c ≡ true) × (p ≡ 0)
no_primary_step true true p h = ((λ e. refl), h)
no_primary_step true false p h = absurd (omega (arith, h))
no_primary_step false true p h = ((λ e. refl), h)
no_primary_step false false p h = ((λ e. cc), h)

no_primary :
    (n : String) (shards : List Shard)
    → primaries n shards ≡ 0
    → All (λ s. s.node_name ≡ n → s.prirep ≡ "r") shards
unfolding primaries
no_primary n [] h = tt
no_primary n (s ∷ shards) h =
    let (f, g) = no_primary_step (s.node_name == n) (s.prirep == "r") (primaries n shards) h in
    ((λ e. (eq_iff s.prirep "r").0 (f ((eq_iff s.node_name n).1 e))), no_primary n shards g)

count_zero :
    (p : World × Result Error (ℕ × ℕ)) (n : ℕ)
    → Post (λ c. 0 + c.1 + n ≤ c.0 + 0) p
    → (continue p (λ c. pure (nat_eq c.1 c.0))).1 ≡ ok true
    → n ≡ 0
unfolding Post
count_zero (w, ok c) n h e = ground (arith, ok_inj e)
count_zero (w, err x) n h e = cc

-- If CheckPodSafeToDelete answers yes, then every shard whose node is written as exactly that name
-- is a replica, whatever the explanations of the allocation were.
pub check_pod_safe_to_delete-replicas :
    (sv : Services) (name : String) (w : World) (shards : List Shard)
    → sv.cat_shards w.history ≡ ok shards
    → (check_pod_safe_to_delete sv name w).1 ≡ ok true
    → All (λ s. s.node_name ≡ name → s.prirep ≡ "r") shards
unfolding check_pod_safe_to_delete
check_pod_safe_to_delete-replicas sv name w shards e h =
    let counted = count_on_node sv name 0 0 shards (log w (read "CatShards")) in
    no_primary name shards (
      count_zero counted (primaries name shards)
        ((count_on_node-Returns sv name 0 0 shards).at (log w (read "CatShards"))) (rw e at h))
