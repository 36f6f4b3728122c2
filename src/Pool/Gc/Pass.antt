-- ===== src/Pool/Gc/Pass.antt =====
-- One pass of reconcileManagedPoolGC, and stopIdleRunningManagedPools in it.
use agent_env.Base.{
  ℕ, suc, Bool, not, ◌&&◌, ◌||◌, if◌then◌else◌, Option, none, some, List, [], ◌∷◌, select, length,
}
use agent_env.Base.Text.{Text}
use agent_env.Base.Int.{ℤ, pos, ltb_ℤ, sub_int64}
use agent_env.Base.Table.{Table}
use agent_env.Base.Sort.{sort}
use agent_env.Kube.{Key, meta_key, WarmPool, Claim}
use agent_env.Pool.Selector.{PolicyError, Result, ok, err}
use agent_env.Pool.Index.{upsert_pool, count_of}
use agent_env.Pool.Lifecycle.{
  is_managed_pool, pool_lifecycle_stopped, SessionBinding, StopServer, StopOutcome, stopped, left,
  stop_managed_pool_if_unused,
}
use agent_env.Pool.Gc.{
  ManagedPoolGcCandidate, managed_pool_last_used_at, managed_pool_references, in_use, sub_time,
  gc_candidates, collected_before, GcAttempt, GcState, on_index, delete_managed_pool_gc_candidate,
}

-- Whether the loop passes a candidate over for its age.
unfoldable pub too_young : ℤ → ℤ → ManagedPoolGcCandidate → Bool
unfolding sub_time
too_young now min_idle c = ltb_ℤ (pos 0) min_idle && ltb_ℤ (sub_time now c.last_used) min_idle

-- The loop over the sorted candidates; `n` have been deleted.
unfoldable pub delete_loop :
    (Text → Text)
    → (Key → GcAttempt)
    → ℤ
    → ℤ
    → ℤ
    → List ManagedPoolGcCandidate
    → ℕ
    → GcState
    → (ℕ × Option PolicyError) × GcState
unfolding too_young delete_managed_pool_gc_candidate
delete_loop hash_ten attempts now min_idle excess [] n s = ((n, none), s)
delete_loop hash_ten attempts now min_idle excess (c ∷ cs) n s =
    let skipped = delete_loop hash_ten attempts now min_idle excess cs n s in
    let key = meta_key c.pool.meta in
    let r = delete_managed_pool_gc_candidate hash_ten (attempts key) key s in
    let kept = delete_loop hash_ten attempts now min_idle excess cs n r.1 in
    let removed = delete_loop hash_ten attempts now min_idle excess cs (suc n) r.1 in
    let tried : (ℕ × Option PolicyError) × GcState = elim (r.0.1) [
      | some e ↦ ((n, some e), r.1)
      | none ↦ if r.0.0 then removed else kept
    ] in
    if not (ltb_ℤ (pos n) excess)
    then ((n, none), s)
    else if too_young now min_idle c
    then skipped
    else tried

-- Whether stopIdleRunningManagedPools stops a pool that its List answers.
unfoldable pub idle_running : (Text → Option ℤ) → ℤ → ℤ → List Key → Table Key ℤ → WarmPool → Bool
unfolding in_use is_managed_pool pool_lifecycle_stopped managed_pool_last_used_at sub_time count_of
idle_running parse_time now min_idle references queued pool =
    let key = meta_key pool.meta in
    not (pool.meta.deleting || not (is_managed_pool pool) || pool_lifecycle_stopped pool)
    && not (in_use key references)
    && not (ltb_ℤ (pos 0) (count_of key queued))
    && not (ltb_ℤ (sub_time now (managed_pool_last_used_at parse_time pool now)) min_idle)

-- The stops that were tried, each with the pool and how it ended.
unfoldable pub stop_each :
    Text → (Key → StopServer) → List WarmPool → List (Key × Result StopOutcome)
unfolding stop_managed_pool_if_unused
stop_each allowed server [] = []
stop_each allowed server (p ∷ ps) =
    let key = meta_key p.meta in
    (key, stop_managed_pool_if_unused allowed key.name key.namespace (server key))
    ∷ stop_each allowed server ps

-- stopIdleRunningManagedPools, of the pools that a List answers.
unfoldable pub stop_idle_running_managed_pools :
    (Text → Option ℤ)
    → Text
    → ℤ
    → ℤ
    → List Key
    → Table Key ℤ
    → (Key → StopServer)
    → Result (List WarmPool)
    → List (Key × Result StopOutcome)
unfolding idle_running stop_each
stop_idle_running_managed_pools parse_time allowed now min_idle references queued server (err e) =
    []
stop_idle_running_managed_pools parse_time allowed now min_idle references queued server
      (ok pools) =
    if not (ltb_ℤ (pos 0) min_idle)
    then []
    else stop_each allowed server
        (select (idle_running parse_time now min_idle references queued) pools)

-- The pools that the stops patched, in the index.
unfoldable pub note_stops : List (Key × Result StopOutcome) → GcState → GcState
unfolding on_index
note_stops [] s = s
note_stops ((key, ok (stopped (some pool))) ∷ rest) s =
    note_stops rest (record s { index = on_index (upsert_pool pool) s.index })
note_stops ((key, ok (stopped none)) ∷ rest) s = note_stops rest s
note_stops ((key, ok left) ∷ rest) s = note_stops rest s
note_stops ((key, err e) ∷ rest) s = note_stops rest s

pub record GcConfig : Type 0 where
  pub enabled : Bool
  pub namespace : Text
  pub max_stopped : ℤ
  pub min_idle_age : ℤ

-- What the API server, the store and the clock say during one pass.
pub record GcWorld : Type 0 where
  pub sessions : List SessionBinding
  pub claims : Result (List Claim)
  pub managed_pools : Result (List WarmPool)
  pub queued : Table Key ℤ
  pub idle_now : ℤ
  pub stop_server : Key → StopServer
  pub stopped_pools : Result (List WarmPool)
  pub now : ℤ
  pub attempts : Key → GcAttempt

unfoldable pub collect_candidates :
    (Text → Text)
    → GcConfig
    → GcWorld
    → List ManagedPoolGcCandidate
    → GcState
    → (ℕ × Option PolicyError) × GcState
unfolding delete_loop collected_before
collect_candidates hash_ten c w found s =
    let excess = sub_int64 (pos (length found)) c.max_stopped in
    if not (ltb_ℤ c.max_stopped (pos (length found)))
    then ((0, none), s)
    else delete_loop hash_ten w.attempts w.now c.min_idle_age excess (sort collected_before found) 0
        s

unfoldable pub reconcile_with_references :
    (Text → Option ℤ)
    → (Text → Text)
    → GcConfig
    → GcWorld
    → List Key
    → GcState
    → (ℕ × Option PolicyError) × GcState
unfolding stop_idle_running_managed_pools note_stops gc_candidates collect_candidates
reconcile_with_references parse_time hash_ten c w references s =
    let stops =
      stop_idle_running_managed_pools parse_time c.namespace w.idle_now c.min_idle_age references
        w.queued w.stop_server w.managed_pools in
    let noted = note_stops stops s in
    elim (w.stopped_pools) [
      | err e ↦ ((0, some e), noted)
      | ok pools ↦
          collect_candidates hash_ten c w (gc_candidates parse_time w.now references pools) noted
    ]

-- reconcileManagedPoolGC: the number that it reports, its error, and what it changed.
unfoldable pub reconcile_managed_pool_gc :
    (Text → Option ℤ)
    → (Text → Text)
    → GcConfig
    → GcWorld
    → GcState
    → (ℕ × Option PolicyError) × GcState
unfolding managed_pool_references reconcile_with_references
reconcile_managed_pool_gc parse_time hash_ten c w s =
    let pass : (ℕ × Option PolicyError) × GcState =
      elim (managed_pool_references c.namespace w.sessions w.claims) [
        | err e ↦ ((0, some e), s)
        | ok references ↦ reconcile_with_references parse_time hash_ten c w references s
      ] in
    if not c.enabled then ((0, none), s) else pass
