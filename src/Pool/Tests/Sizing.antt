-- ===== src/Pool/Tests/Sizing.antt =====
-- The autoscaler, at concrete pools and limits.
use agent_env.Base.{◌≡◌, refl, Option, none, List, [], ◌∷◌, ◌⊎◌, arith}
use agent_env.Pool.Tests.{warm_pool, key_of}
use agent_env.Pool.Snapshot.{desired_replicas_of}
use agent_env.Base.Text.{text_eq, to_lower, trim_space, codes}
use agent_env.Base.Int.{ℤ, pos, ◌≤ℤ◌, ◌<ℤ◌}
use agent_env.Base.Table.{Table, lookup}
use agent_env.Kube.{Key, WarmPool}
use agent_env.Pool.Selector.{PolicyError}
use agent_env.Pool.Autoscaler.{AutoscalerConfig, pool_autoscale_target, reconcile_pools}
use agent_env.Pool.Autoscaler.Target.{pool_autoscale_target_bounds, pool_autoscale_target_overflow}
use agent_env.Pool.Autoscaler.Pass.{AllSized, reconcile_pools-AllSized, reconcile_pools_settled}

abbrev limits : AutoscalerConfig
limits = record { buffer = pos 1; min_replicas = pos 1; max_replicas = pos 8 }

abbrev unlimited : AutoscalerConfig
unlimited = record { buffer = pos 1; min_replicas = pos 1; max_replicas = pos 0 }

abbrev queued : Table Key ℤ
queued = (key_of (codes "a"), pos 3) ∷ []

abbrev willing : WarmPool → Option PolicyError
willing p = none

abbrev before : List WarmPool
before = warm_pool (codes "a") 1 1 ∷ warm_pool (codes "b") 5 5 ∷ []

abbrev after : List WarmPool
after = warm_pool (codes "a") 4 1 ∷ warm_pool (codes "b") 1 5 ∷ []

pool_autoscale_target_bounds_example :
    (pos 0 ≤ℤ pool_autoscale_target limits (pos 20))
    × (pos 0 <ℤ pos 8 → pool_autoscale_target limits (pos 20) ≤ℤ pos 8)
    × ((pos 1 ≤ℤ pos 8) ⊎ (pos 8 ≤ℤ pos 0) → pos 1 ≤ℤ pool_autoscale_target limits (pos 20))
pool_autoscale_target_bounds_example = pool_autoscale_target_bounds limits (pos 20)

pool_autoscale_target_overflow_example : pool_autoscale_target unlimited (pos 2147483647) ≡ pos 1
pool_autoscale_target_overflow_example =
    pool_autoscale_target_overflow unlimited 2147483647 (omega arith) (omega arith) (omega arith)
      (omega arith)

before_runs : (reconcile_pools limits queued willing before).1 ≡ none
unfolding reconcile_pools text_eq to_lower trim_space lookup desired_replicas_of
before_runs = refl

reconcile_pools-AllSized_example :
    AllSized limits queued before (reconcile_pools limits queued willing before).0
reconcile_pools-AllSized_example = reconcile_pools-AllSized limits queued willing before before_runs

after-AllSized : AllSized limits queued before after
unfolding reconcile_pools text_eq to_lower trim_space lookup desired_replicas_of
after-AllSized = reconcile_pools-AllSized limits queued willing before refl

reconcile_pools_settled_example : reconcile_pools limits queued (λ p. none) after ≡ (after, none)
reconcile_pools_settled_example =
    reconcile_pools_settled limits queued (λ p. none) before after after-AllSized
