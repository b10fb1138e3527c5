-- ===== src/Gateway/Health/Ready.antt =====
-- When the cluster counts as ready for a restart.
use opensearch_k8s_operator.Prelude.{
  ◌≡◌, ◌⊎◌, inl, inr, refl, sym, Bool, true, false, not, ◌||◌, String, ◌==◌, eq_iff, if◌then◌else◌,
}
use opensearch_k8s_operator.Prelude.Int.{pos, ◌<ℤ◌}
use opensearch_k8s_operator.Api.{Health}
use opensearch_k8s_operator.Exec.{History, read, World, ok, log, pure, ◌>>=◌}
use opensearch_k8s_operator.Exec.Returns.{
  Post_ok, Returns, Returns-pure, Returns-if, Returns-bind, Returns-behind, Returns-query,
  Returns-weaken,
}
use opensearch_k8s_operator.Services.{Services}
use opensearch_k8s_operator.Services.Calls.{get_health, get_flat_allocation_enable}
use opensearch_k8s_operator.Gateway.Settings.{set_cluster_shard_allocation, all}
use opensearch_k8s_operator.Gateway.Shards.{check_cluster_restart_on_yellow, count_stuck_on_yellow}
use opensearch_k8s_operator.Gateway.Health.{enable_allocation, check_cluster_status_for_restart}

-- The cluster is green, or it is yellow and no shard is moving or being set up.
abbrev pub Quiet : Health → Type 0
Quiet health =
    (health.status ≡ "green")
    ⊎ ((health.status ≡ "yellow")
        × ((pos 0 <ℤ health.relocating_shards) ≡ false)
        × ((pos 0 <ℤ health.initializing_shards) ≡ false))

pub negation_false : (b : Bool) → not b ≡ false → b ≡ true
negation_false true e = refl
negation_false false e = sym e

or_false : (a b : Bool) → a || b ≡ false → (a ≡ false) × (b ≡ false)
or_false true b e = absurd (cc)
or_false false b e = (refl, e)

module _ (sv : Services) where
  enable_allocation-Returns :
      (drain : Bool) → Returns (λ p. p.0 ≡ false) (enable_allocation sv drain)
  unfolding enable_allocation
  enable_allocation-Returns true = Returns-pure _ refl
  enable_allocation-Returns false = Returns-bind (get_flat_allocation_enable sv) _ (λ enable.
      Returns-if (enable == "all") _ _ (λ _. Returns-pure _ refl)
        (λ _. Returns-bind (set_cluster_shard_allocation sv all) _ (λ _. Returns-pure _ refl)))

  yellow-Returns :
      (health : Health)
      → Returns (λ b. b ≡ true → Quiet health) (check_cluster_restart_on_yellow sv health)
  unfolding check_cluster_restart_on_yellow
  yellow-Returns health =
      Returns-if (not (health.status == "yellow")) _ _ (λ _. Returns-pure false (λ e. cc))
        (λ y.
          Returns-if ((pos 0 <ℤ health.relocating_shards) || (pos 0 <ℤ health.initializing_shards))
            _ _ (λ _. Returns-pure false (λ e. cc))
            (λ n. Returns-bind (count_stuck_on_yellow sv 0 health.indices) _ (λ k.
              Returns-pure _ (λ _. inr (
                (eq_iff health.status "yellow").0 (negation_false _ y),
                (or_false _ _ n).0,
                (or_false _ _ n).1,
              )))))

  tail-Returns :
      (health : Health) (drain : Bool)
      → Returns
          (λ p. p.0 ≡ true → Quiet health)
          (if health.status == "green"
            then pure (true, "")
            else if health.status == "yellow"
            then (do
              safe ← check_cluster_restart_on_yellow sv health
              if safe then pure (true, "") else enable_allocation sv drain)
            else enable_allocation sv drain)
  tail-Returns health drain =
      let refused : Returns (λ p. p.0 ≡ true → Quiet health) (enable_allocation sv drain) =
        Returns-weaken (enable_allocation sv drain) (λ p e f. absurd (cc))
          (enable_allocation-Returns drain) in
      Returns-if (health.status == "green") _ _
        (λ g. Returns-pure (true, "") (λ _. inl ((eq_iff health.status "green").0 g)))
        (λ _.
          Returns-if (health.status == "yellow") _ _
            (λ _.
              Returns-behind (check_cluster_restart_on_yellow sv health) _ (yellow-Returns health)
                (λ safe q.
                  Returns-if safe _ _ (λ s. Returns-pure (true, "") (λ _. q s)) (λ _. refused)))
            (λ _. refused))

  -- Whatever is asked on the way, CheckClusterStatusForRestart lets a restart go on only if the
  -- cluster is green, or is yellow with no shard that is moving or being set up.
  pub check_cluster_status_for_restart-Quiet :
      (drain : Bool) (w : World) (health : Health) (reason : String)
      → sv.get_health w.history ≡ ok health
      → (check_cluster_status_for_restart sv drain w).1 ≡ ok (true, reason)
      → Quiet health
  unfolding check_cluster_status_for_restart
  check_cluster_status_for_restart-Quiet drain w health reason e h =
      Post_ok (λ p. p.0 ≡ true → Quiet health) _ (true, reason)
        ((tail-Returns health drain).at (log w (read "GetHealth"))) (rw e at h) refl

  -- With a health that is never quiet no restart goes on.
  pub check_cluster_status_for_restart-unquiet :
      (unquiet : (h : History) (health : Health) → sv.get_health h ≡ ok health → ¬ Quiet health)
      (drain : Bool)
      → Returns (λ p. ¬ (p.0 ≡ true)) (check_cluster_status_for_restart sv drain)
  unfolding check_cluster_status_for_restart
  check_cluster_status_for_restart-unquiet unquiet drain =
      Returns-behind (get_health sv) _ (Returns-query (λ health. ¬ Quiet health) _ _ unquiet)
        (λ health no_quiet. Returns-weaken _ (λ p q e. no_quiet (q e)) (tail-Returns health drain))
