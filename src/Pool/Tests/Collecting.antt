-- ===== src/Pool/Tests/Collecting.antt =====
-- A pass of the collector over two stopped managed pools, of which one may stay.
use agent_env.Base.{
  ℕ, zero, suc, ◌+◌, ◌-◌, ◌*◌, ◌%◌, ◌≤◌, ◌<◌, ◌≡◌, ◌≢◌, refl, sym, ap, ap₂, subst, ◌∙◌, Bool, true,
  false, not, ◌&&◌, ◌||◌, if◌then◌else◌, Option, none, some, List, [], ◌∷◌, ◌++◌, map, ◌==◌, get_or,
  select, inl, inr, ◌⊎◌, ◌↔◌, length, arith, Bool-cases, Option-cases, In, All, All-In, eqb, ltb,
  leb, is_some, take,
}
use agent_env.Pool.Tests.{meta_of, key_of}
use agent_env.Base.Text.{Text, Text_eq, codes, text_eq, to_lower, trim_space}
use agent_env.Base.Int.{ℤ, pos, ltb_ℤ}
use agent_env.Base.Table.{lookup}
use agent_env.Base.Sort.{sort}
use agent_env.Kube.{Key, WarmPool, meta_key}
use agent_env.Pool.Selector.{ok}
use agent_env.Pool.Lifecycle.{found, missing, StopServer}
use agent_env.Pool.Gc.{
  ManagedPoolGcCandidate, GcAttempt, GcState, deleted, managed_pool_references, gc_candidates,
  delete_managed_pool_gc_candidate,
}
use agent_env.Pool.Gc.Pass.{GcConfig, GcWorld, reconcile_managed_pool_gc}
use agent_env.Pool.Gc.Promises.{IsCollectable, reconcile_managed_pool_gc-IsCollectable}
use agent_env.Pool.Gc.Order.{
  AllSucceed, reconcile_managed_pool_gc-IsBounded, reconcile_managed_pool_gc_order,
}
use agent_env.Pool.Gc.Ranking.{old_enough, AreFirst}

abbrev no_time : Text → Option ℤ
no_time t = none

abbrev no_hash : Text → Text
no_hash t = codes "0000000000"

-- A managed pool that was created at a moment, stopped or running.
abbrev managed_pool : Text → ℕ → Text → ℕ → WarmPool
managed_pool name created state replicas = record {
  meta = record (meta_of name) {
    created_at = created;
    annotations =
        (codes "arl.infra.io/managed-pool", codes "true")
        ∷ (codes "arl.infra.io/pool-state", state)
        ∷ (codes "arl.infra.io/autoscale", codes "false")
        ∷ [];
  };
  template_name = [];
  replicas = some (pos replicas);
  ready_replicas = pos 0;
}

abbrev least_used : WarmPool
least_used = managed_pool (codes "a") 10 (codes "stopped") 0

abbrev newer : WarmPool
newer = managed_pool (codes "b") 20 (codes "stopped") 0

abbrev busy : WarmPool
busy = managed_pool (codes "c") 10 (codes "running") 1

abbrev attempts : Key → GcAttempt
attempts k = record {
  get = found least_used;
  sessions = [];
  claims = ok [];
  delete = deleted;
  get_template = missing;
  delete_template_answer = deleted;
}

abbrev server : Key → StopServer
server k = record {
  now = codes "2026";
  get = found busy;
  sessions = [];
  claims = ok [];
  get_again = found busy;
  patch = λ p. none;
}

abbrev config : GcConfig
config = record {
  enabled = true;
  namespace = codes "ml";
  max_stopped = pos 1;
  min_idle_age = pos 5;
}

abbrev world : GcWorld
world = record {
  sessions = [];
  claims = ok [];
  managed_pools = ok [];
  queued = [];
  idle_now = pos 100;
  stop_server = server;
  stopped_pools = ok (newer ∷ least_used ∷ []);
  now = pos 100;
  attempts = attempts;
}

abbrev start : GcState
start = record { index = none; deleted_pools = []; deleted_templates = [] }

pass_runs :
    (reconcile_managed_pool_gc no_time no_hash config world start).1.deleted_pools
    ≡ key_of (codes "a") ∷ []
unfolding reconcile_managed_pool_gc text_eq to_lower trim_space lookup sort
    agent_env.Base.Int.sub_int64
pass_runs = refl

referred : managed_pool_references (codes "ml") [] (ok []) ≡ ok []
unfolding managed_pool_references
referred = refl

reconcile_managed_pool_gc-IsCollectable_example :
    In (key_of (codes "a")) [] ⊎ IsCollectable no_time config world (key_of (codes "a"))
unfolding reconcile_managed_pool_gc text_eq to_lower trim_space lookup sort
    agent_env.Base.Int.sub_int64
reconcile_managed_pool_gc-IsCollectable_example =
    reconcile_managed_pool_gc-IsCollectable no_time no_hash config world start (key_of (codes "a"))
      (inl refl)

succeed : AllSucceed no_hash attempts
unfolding delete_managed_pool_gc_candidate text_eq to_lower trim_space lookup
succeed k s = refl

two_found :
    length (gc_candidates no_time (pos 100) [] (newer ∷ least_used ∷ [])) < 9223372036854775808
unfolding gc_candidates text_eq to_lower trim_space lookup
two_found = omega arith

reconcile_managed_pool_gc-IsBounded_example :
    length (reconcile_managed_pool_gc no_time no_hash config world start).1.deleted_pools
    ≤ 0 + (length (gc_candidates no_time (pos 100) [] (newer ∷ least_used ∷ [])) - 1)
reconcile_managed_pool_gc-IsBounded_example =
    reconcile_managed_pool_gc-IsBounded no_time no_hash config world start []
      (newer ∷ least_used ∷ []) refl referred refl 1 refl two_found

reconcile_managed_pool_gc_order_example :
    (chosen : List ManagedPoolGcCandidate) × ((reconcile_managed_pool_gc no_time no_hash config
        world start).1.deleted_pools
      ≡ [] ++ map (λ c. meta_key c.pool.meta) chosen)
    × AreFirst
        (old_enough (pos 100) (pos 5))
        (length (gc_candidates no_time (pos 100) [] (newer ∷ least_used ∷ [])) - 1)
        (gc_candidates no_time (pos 100) [] (newer ∷ least_used ∷ []))
        chosen
reconcile_managed_pool_gc_order_example =
    reconcile_managed_pool_gc_order no_time no_hash config world start [] (newer ∷ least_used ∷ [])
      refl referred refl 1 refl two_found succeed
