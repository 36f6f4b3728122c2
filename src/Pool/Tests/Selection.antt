-- ===== src/Pool/Tests/Selection.antt =====
-- SelectPool and the listings of pools, at concrete pools.
use agent_env.Base.{◌≡◌, refl, List, [], ◌∷◌, arith}
use agent_env.Pool.Tests.{snapshot, intent}
use agent_env.Base.Text.{codes}
use agent_env.Pool.Snapshot.{PoolSnapshot}
use agent_env.Pool.Selector.{select_pool}
use agent_env.Pool.Selector.Choice.{IsChoice, select_pool-IsChoice}
use agent_env.Pool.Selector.Agreement.{HasUniqueNames, select_pool-Permᴰ}
use mathlib.Core.List.{Permᴰ}

abbrev pools : List PoolSnapshot
pools = snapshot (codes "a") 1 ∷ snapshot (codes "b") 2 ∷ []

abbrev shuffled : List PoolSnapshot
shuffled = snapshot (codes "b") 2 ∷ snapshot (codes "a") 1 ∷ []

pools-HasUniqueNames : HasUniqueNames pools
pools-HasUniqueNames a b i j s n = ground arith

select_pool-IsChoice_example : IsChoice intent pools (select_pool intent pools)
select_pool-IsChoice_example = select_pool-IsChoice intent pools refl

select_pool-Permᴰ_example : select_pool intent pools ≡ select_pool intent shuffled
select_pool-Permᴰ_example = select_pool-Permᴰ intent pools-HasUniqueNames (Permᴰ.swap refl refl)
