-- ===== src/Pool/Tests/Planning.antt =====
-- The planner and the index's views, at a pool that gets a ready replica while the request waits.
use agent_env.Base.{
  ◌<◌, ◌≡◌, refl, true, false, Option, none, some, List, [], ◌∷◌, inl, ◌⊎◌, ◌↔◌, arith, In,
}
use agent_env.Pool.Tests.{warm_pool, snapshot, intent, key_of}
use agent_env.Base.Int.{inc_int32, dec_int32, pos, ◌≤ℤ◌}
use agent_env.Base.Text.{codes, text_eq, trim_space}
use agent_env.Base.Table.{insert, delete, lookup, entries_with}
use agent_env.Kube.{Key, Key_eq, key_eq_iff, WarmPool}
use agent_env.Pool.Snapshot.{warm_available, PoolSnapshot, desired_replicas_of}
use agent_env.Pool.Selector.{ResourceIntent, select_pool, wanted, admit, Result, ok, canceled}
use agent_env.Pool.Autoscaler.{AutoscalerConfig, pool_autoscale_target, autoscaling_off}
use agent_env.Pool.Queue.Depth.{idle, enters}
use agent_env.Base.Sort.{sort}
use agent_env.Pool.Queue.{increment_admission_queue, decrement_admission_queue}
use agent_env.Pool.Index.{PoolIndex, IndexedPool, indexed_pool_from_object, count_of}
use agent_env.Pool.Index.Counts.{IsExact}
use agent_env.Pool.Index.Views.{
  intent_wanted, snapshot_locked, snapshot_pools_for_intent, PoolListOptions, pool_info, list_pools,
}
use agent_env.Pool.Index.Views.Active.{claimed_pool_offered, list_pools_iff, IsListed}
use agent_env.Pool.Index.Views.Offers.{
  snapshot_pools_for_intent_iff, IsAskedFor, IsAtRest, AllAtRest,
}
use agent_env.Pool.Planner.{
  woken, Plan, PoolServer, PlannerState, Moment, context_done, ticker, scale_found,
  plan_session_allocation, try_plan,
}
use agent_env.Pool.Planner.Scaling.{IsAwake, scaled, scale_found-IsAwake}
use agent_env.Pool.Planner.Waiting.{IsGranted}
use agent_env.Pool.Planner.Promises.{
  Returns, plan_session_allocation-IsGranted, plan_session_allocation_queue,
  plan_session_allocation-Returns,
}

abbrev limits : AutoscalerConfig
limits = record { buffer = pos 0; min_replicas = pos 0; max_replicas = pos 8 }

abbrev server : PoolServer
server = record {
  now = codes "2026-01-01T00:00:00Z";
  get = ok (warm_pool (codes "a") 0 0);
  patch = λ p. none;
}

-- No replica is ready at first, one is at the tick, and then the context would end.
abbrev cold : Result (List PoolSnapshot)
cold = ok (snapshot (codes "a") 0 ∷ [])

abbrev warm : Result (List PoolSnapshot)
warm = ok (snapshot (codes "a") 1 ∷ [])

abbrev moments : List Moment
moments = ticker none warm server ∷ context_done canceled ∷ []

abbrev start : PlannerState
start = record { depth = increment_admission_queue (key_of (codes "b")) []; index = none }

abbrev granted : Plan
granted = try_plan intent warm

abbrev run : Option (Plan × PlannerState)
run = plan_session_allocation limits intent cold false server moments start

run_lem : run ≡ some (granted, start)
unfolding plan_session_allocation select_pool sort wanted text_eq trim_space admit warm_available
    desired_replicas_of pool_autoscale_target lookup increment_admission_queue insert inc_int32
    decrement_admission_queue dec_int32 delete
run_lem = refl

plan_session_allocation-IsGranted_example : IsGranted intent granted
plan_session_allocation-IsGranted_example =
    plan_session_allocation-IsGranted limits intent cold false server moments start granted start
      run_lem

plan_session_allocation_queue_example :
    lookup (key_of (codes "a")) start.depth ≡ lookup (key_of (codes "a")) start.depth
plan_session_allocation_queue_example =
    plan_session_allocation_queue limits intent cold false server moments start granted start
      (key_of (codes "b") ∷ []) (key_of (codes "a")) run_lem
      (enters (key_of (codes "b")) [] [] (omega arith) idle) (omega arith) refl

plan_session_allocation-Returns_example : Returns run
plan_session_allocation-Returns_example =
    plan_session_allocation-Returns limits intent cold false server moments start tt

abbrev asleep : WarmPool
asleep = warm_pool (codes "a") 0 0

abbrev awake : WarmPool
awake = woken server.now (pos 2) asleep

scales : scale_found limits (pos 2) server asleep ≡ ok (some awake)
unfolding scale_found desired_replicas_of pool_autoscale_target
scales = refl

scale_found-IsAwake_example :
    IsAwake limits (pos 2) (scaled asleep (some awake))
    × (autoscaling_off asleep.meta ≡ false
        → desired_replicas_of asleep ≤ℤ desired_replicas_of (scaled asleep (some awake)))
scale_found-IsAwake_example = scale_found-IsAwake limits (pos 2) server asleep (some awake) scales

abbrev index : PoolIndex
index = record {
  synced = true;
  pools = (key_of (codes "a"), indexed_pool_from_object asleep) ∷ [];
  templates = [];
  claims = (key_of (codes "c1"), key_of (codes "a")) ∷ [];
  claim_counts = (key_of (codes "a"), pos 1) ∷ [];
}

index-IsExact : IsExact index
unfolding count_of lookup entries_with text_eq
index-IsExact = record {
  is_map = (refl, tt);
  exact = λ q. ground (arith, key_eq_iff (key_of (codes "a")) q);
}

-- A request for any pool of the namespace.
abbrev open_intent : ResourceIntent
open_intent = record intent { profile = []; image = [] }

abbrev entry : Key × IndexedPool
entry = (key_of (codes "a"), indexed_pool_from_object asleep)

entry_is_wanted : intent_wanted open_intent index entry ≡ true
unfolding intent_wanted text_eq trim_space
entry_is_wanted = refl

held : 0 < entries_with (key_of (codes "a")) index.claims
unfolding entries_with text_eq
held = omega arith

offered : In (snapshot_locked index entry) (snapshot_pools_for_intent open_intent index)
offered = claimed_pool_offered open_intent index entry index-IsExact (inl refl) entry_is_wanted held

claimed_pool_offered_example :
    In (snapshot_locked index entry) (snapshot_pools_for_intent open_intent index)
claimed_pool_offered_example =
    claimed_pool_offered open_intent index entry index-IsExact (inl refl) entry_is_wanted held

snapshot_pools_for_intent_iff_example :
    In (snapshot_locked index entry) (snapshot_pools_for_intent open_intent index) ↔ (
      (e : Key × IndexedPool) × In e index.pools
      × (snapshot_locked index entry ≡ snapshot_locked index e)
      × IsAskedFor open_intent index e
      × ((¬ IsAtRest open_intent index e) ⊎ AllAtRest open_intent index))
snapshot_pools_for_intent_iff_example =
    snapshot_pools_for_intent_iff open_intent index (snapshot_locked index entry)

abbrev everything : PoolListOptions
everything = record { namespace = []; include_stopped = true }

list_pools_iff_example : In (pool_info index entry) (list_pools everything index) ↔ (
    (e : Key × IndexedPool) × In e index.pools
    × (pool_info index entry ≡ pool_info index e)
    × IsListed everything index e)
list_pools_iff_example = list_pools_iff everything index (pool_info index entry)
