-- ===== src/Scaler/Run/Requeue.antt =====
-- What is left of the results of the node pools in the result of the run.
use opensearch_k8s_operator.Prelude.{◌≡◌, refl, Bool, none, some, List, [], ◌∷◌}
use opensearch_k8s_operator.Api.{Cluster, NodePool}
use opensearch_k8s_operator.Exec.{World, ok}
use opensearch_k8s_operator.Services.{Services}
use opensearch_k8s_operator.Combined.{CombinedResult, combine}
use opensearch_k8s_operator.Scaler.Pool.{reconcile_node_pool}
use opensearch_k8s_operator.Scaler.Run.{results_of, requeue_flag, reconcile_pools}

abbrev pub last_flag : Bool → List Bool → Bool
last_flag b [] = b
last_flag b (c ∷ cs) = last_flag c cs

module _ (sv : Services) (instance' : Cluster) where
  -- The pools are reconciled one after the other from `w` to `v`. None ends with an error, and they
  -- ask to requeue as the flags say.
  abbrev pub Calm : World → List NodePool → List Bool → World → Type 0
  Calm w [] [] v = w ≡ v
  Calm w [] (b ∷ bs) v = ⊥
  Calm w (np ∷ nps) [] v = ⊥
  Calm w (np ∷ nps) (b ∷ bs) v =
      (u : World) × (results_of (reconcile_node_pool sv instance' np) w ≡ (u, ok (b, none)))
      × Calm u nps bs v

  -- If no node pool ends with an error, however many there are, then the loop gets to its end, and
  -- all that is left of what the pools ask for is the flag of the last one.
  pub reconcile_pools-last :
      (nps : List NodePool) (requeue : Bool) (results : CombinedResult) (bs : List Bool)
      (w v : World)
      → Calm w nps bs v
      → reconcile_pools sv instance' requeue results nps w
        ≡ (v, ok (combine results (some (requeue_flag (last_flag requeue bs))) none))
  unfolding reconcile_pools
  reconcile_pools-last [] requeue results [] w v calm = rw calm refl
  reconcile_pools-last [] requeue results (b ∷ bs) w v calm = absurd calm
  reconcile_pools-last (np ∷ nps) requeue results [] w v calm = absurd calm
  reconcile_pools-last (np ∷ nps) requeue results (b ∷ bs) w v (u, step, calm) =
      rw step (reconcile_pools-last nps b results bs u v calm)
