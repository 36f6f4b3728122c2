-- ===== src/Pool/Gc/Idle.antt =====
-- What stopIdleRunningManagedPools stops.
use agent_env.Base.{none, some, false, sym, List, Option, ◌≡◌, sym}
use agent_env.Base.Text.{Text}
use agent_env.Base.Int.{ℤ, pos, ◌≤ℤ◌}
use agent_env.Base.Table.{Table}
use agent_env.Kube.{Key, meta_key, WarmPool, Claim}
use agent_env.Pool.Index.{count_of}
use agent_env.Pool.Lifecycle.Bindings.{IsManaged, IsStopped, IsUnbound}
use agent_env.Pool.Gc.Reasons.{IsUnreferred, IsIdle}
use agent_env.Pool.Gc.{managed_pool_last_used_at}
use agent_env.Pool.Selector.{Result}
use agent_env.Pool.Lifecycle.{found, SessionBinding, StopServer}

-- Why the collector may stop a pool that it found running: managed, not being deleted and not stopped
-- yet; no open session and no claim referred to it when the pass began; no request waits for it; and
-- it has been idle for the minimum age.
pub record IsIdleRunning (parse_time : Text → Option ℤ) (namespace : Text) (now min_idle : ℤ)
    (sessions : List SessionBinding) (claims : Result (List Claim)) (queued : Table Key ℤ)
    (pool : WarmPool) : Type 0 where
  pub kept : pool.meta.deleting ≡ false
  pub managed : IsManaged pool
  pub running : ¬ IsStopped pool
  pub unreferred : IsUnreferred namespace sessions claims (meta_key pool.meta)
  pub unawaited : count_of (meta_key pool.meta) queued ≤ℤ pos 0
  pub idle : IsIdle min_idle now (managed_pool_last_used_at parse_time pool now)

-- While it is stopped, the pool is there, managed, not stopped yet, and no session and no claim is
-- bound to it.
pub record IsStoppableNow (name namespace : Text) (server : StopServer) : Type 0 where
  pub pool : WarmPool
  pub there : server.get ≡ found pool
  pub managed : IsManaged pool
  pub running : ¬ IsStopped pool
  pub unbound : IsUnbound name namespace server.sessions server.claims

-- The stop leaves a stopped pool, or none where the pool has gone meanwhile.
abbrev pub IsLeftAtRest : Option WarmPool → Type 0
IsLeftAtRest none = Unit {0}
IsLeftAtRest (some pool) = IsStopped pool
