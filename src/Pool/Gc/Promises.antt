-- ===== src/Pool/Gc/Promises.antt =====
-- What a whole pass of the collector deletes.
use agent_env.Base.{
  subst, In-of_map, In-of_select, Option, List, In, ◌≡◌, ◌⊎◌, true, Bool-cases, map, false, not,
  select, length, ◌∙◌, inl, inr, ap, some, refl, sym, arith,
}
use agent_env.Base.Text.{Text}
use agent_env.Base.Int.{ℤ, pos, ltb_ℤ, sub_int64, ◌≤ℤ◌}
use agent_env.Base.Sort.{sort, In-of_sort}
use agent_env.Kube.{Key, meta_key, WarmPool}
use agent_env.Pool.Selector.{Result, ok, err}
use agent_env.Pool.Lifecycle.{Result-cases, found}
use agent_env.Pool.Gc.{
  ManagedPoolGcCandidate, GcState, managed_pool_references, gc_candidates, candidate_of,
  is_candidate, collected_before, GcAttempt, in_use, managed_pool_last_used_at,
}
use agent_env.Pool.Lifecycle.Bindings.{
  IsManaged, IsStopped, IsUnbound, managed→IsManaged, stopped→IsStopped, unbound→IsUnbound,
}
use agent_env.Pool.Gc.Reasons.{IsUnreferred, IsIdle, unused→IsUnreferred, not_young-IsIdle}
use agent_env.Pool.Gc.Attempts.{IsUnused}
use agent_env.Pool.Gc.Pass.{
  too_young, GcConfig, GcWorld, note_stops, collect_candidates, reconcile_with_references,
  reconcile_managed_pool_gc, stop_idle_running_managed_pools,
}
use agent_env.Pool.Gc.Turns.{Out, key_of}
use agent_env.Pool.Gc.Safety.{IsDue, delete_loop-IsDue, note_stops_pools}

-- While it is deleted, the pool is there, managed and stopped, and no session and no claim is bound
-- to it.
pub record IsUnusedNow (a : GcAttempt) (k : Key) : Type 0 where
  pub pool : WarmPool
  pub there : a.get ≡ found pool
  pub managed : IsManaged pool
  pub at_rest : IsStopped pool
  pub unbound : IsUnbound k.name k.namespace a.sessions a.claims

-- Why a pass may delete a pool: it was listed, managed and stopped, no session and no claim referred
-- to it when the pass began, it has been idle for the minimum age where one is set, and it is unused
-- while it is deleted.
pub record IsCollectable (parse_time : Text → Option ℤ) (c : GcConfig) (w : GcWorld) (k : Key)
    : Type 0 where
  pub pools : List WarmPool
  pub pool : WarmPool
  pub listed : w.stopped_pools ≡ ok pools
  pub among : In pool pools
  pub named : k ≡ meta_key pool.meta
  pub managed : IsManaged pool
  pub at_rest : IsStopped pool
  pub unreferred : IsUnreferred c.namespace w.sessions w.claims k
  pub idle :
      (c.min_idle_age ≤ℤ pos 0)
      ⊎ IsIdle c.min_idle_age w.now (managed_pool_last_used_at parse_time pool w.now)
  pub unused : IsUnusedNow (w.attempts k) k

unused→IsUnusedNow : (a : GcAttempt) (k : Key) → IsUnused a k → IsUnusedNow a k
unused→IsUnusedNow a k u = record {
  pool = u.pool;
  there = u.there;
  managed = managed→IsManaged u.pool (u.managed);
  at_rest = stopped→IsStopped u.pool (u.at_rest);
  unbound = unbound→IsUnbound k.name k.namespace a.sessions a.claims (u.unbound);
}

-- What the tests of a candidate say of its pool.
candidate_lem :
    (references : List Key) (pool : WarmPool)
    → is_candidate references pool ≡ true
    → (in_use (meta_key pool.meta) references ≡ false) × IsManaged pool × IsStopped pool
unfolding is_candidate
candidate_lem references pool h = (
  ground (arith, h),
  managed→IsManaged pool (ground (arith, h)),
  stopped→IsStopped pool (ground (arith, h)),
)

not_young-IsIdle_or_unset :
    (now min_idle : ℤ) (d : ManagedPoolGcCandidate)
    → too_young now min_idle d ≡ false
    → (min_idle ≤ℤ pos 0) ⊎ IsIdle min_idle now d.last_used
unfolding too_young
not_young-IsIdle_or_unset now min_idle d h = elim (Bool-cases (ltb_ℤ (pos 0) min_idle)) [
  | inl t ↦ inr (not_young-IsIdle min_idle now d.last_used t (ground (arith, h, t)))
  | inr f ↦ inl (ground (arith, f))
]

module _ (parse_time : Text → Option ℤ) (hash_ten : Text → Text) (c : GcConfig) (w : GcWorld) where
  collected :
      (candidates : List ManagedPoolGcCandidate) (s : GcState) (k : Key)
      → In k (collect_candidates hash_ten c w candidates s).1.deleted_pools
      → In k s.deleted_pools
        ⊎ IsDue hash_ten w.attempts w.now c.min_idle_age (sort collected_before candidates) k
  unfolding collect_candidates
  collected candidates s k i =
      elim (Bool-cases (not (ltb_ℤ c.max_stopped (pos (length candidates))))) [
        | inl t ↦ inl (rw t at i)
        | inr f ↦
            delete_loop-IsDue hash_ten w.attempts w.now c.min_idle_age
              (sub_int64 (pos (length candidates)) c.max_stopped) (sort collected_before candidates)
              0 s k (rw f at i)
      ]

  due-IsCollectable :
      (references : List Key) (pools : List WarmPool) (k : Key)
      → managed_pool_references c.namespace w.sessions w.claims ≡ ok references
      → w.stopped_pools ≡ ok pools
      → IsDue hash_ten w.attempts w.now c.min_idle_age
          (sort collected_before (gc_candidates parse_time w.now references pools))
          k
      → IsCollectable parse_time c w k
  unfolding gc_candidates candidate_of
  due-IsCollectable references pools k r l (d, i, e, y, u) =
      let candidates =
        map (candidate_of parse_time w.now) (select (is_candidate references) pools) in
      let (pool, j, f) =
        In-of_map (candidate_of parse_time w.now) (select (is_candidate references) pools) d
          (In-of_sort collected_before d candidates i) in
      let (a, t) = In-of_select (is_candidate references) pools pool j in
      let (free, m, st) = candidate_lem references pool t in
      let n : k ≡ meta_key pool.meta = e ∙ ap key_of f in
      record {
        pools = pools;
        pool = pool;
        listed = l;
        among = a;
        named = n;
        managed = m;
        at_rest = st;
        unreferred = subst (IsUnreferred c.namespace w.sessions w.claims) (sym n) (
            unused→IsUnreferred c.namespace w.sessions w.claims references (meta_key pool.meta) r
              free);
        idle =
            not_young-IsIdle_or_unset w.now c.min_idle_age (candidate_of parse_time w.now pool)
              (subst (λ x. too_young w.now c.min_idle_age x ≡ false) f y);
        unused = unused→IsUnusedNow (w.attempts k) k u;
      }

  abbrev pub noted : List Key → GcState → GcState
  noted references s =
      note_stops
        (stop_idle_running_managed_pools parse_time c.namespace w.idle_now c.min_idle_age references
          w.queued w.stop_server w.managed_pools)
        s

  -- The pass after the stops, by what the second List answers.
  listing :
      (references : List Key) (s : GcState) (k : Key) (answer : Result (List WarmPool))
      → managed_pool_references c.namespace w.sessions w.claims ≡ ok references
      → w.stopped_pools ≡ answer
      → In k
          (elim answer as (λ x. Out) [
            | err e ↦ ((0, some e), noted references s)
            | ok pools ↦
                collect_candidates hash_ten c w
                  (gc_candidates parse_time w.now references pools)
                  (noted references s)
          ]).1.deleted_pools
      → In k s.deleted_pools ⊎ IsCollectable parse_time c w k
  listing references s k (err e) r l i = inl (subst (In k) (note_stops_pools _ s) i)
  listing references s k (ok pools) r l i =
      elim (collected (gc_candidates parse_time w.now references pools) (noted references s) k i) [
        | inl j ↦ inl (subst (In k) (note_stops_pools _ s) j)
        | inr d ↦ inr (due-IsCollectable references pools k r l d)
      ]

  with_references :
      (references : List Key) (s : GcState) (k : Key)
      → managed_pool_references c.namespace w.sessions w.claims ≡ ok references
      → In k (reconcile_with_references parse_time hash_ten c w references s).1.deleted_pools
      → In k s.deleted_pools ⊎ IsCollectable parse_time c w k
  unfolding reconcile_with_references
  with_references references s k r i = listing references s k w.stopped_pools r refl i

-- Every pool that a pass deletes, whatever the API server answers, was listed as stopped, managed and
-- stopped, with no open session and no claim that referred to it when the pass began, idle for the
-- minimum age where one is set, and again there, managed, stopped and without a session or a claim
-- when it was deleted.
pub reconcile_managed_pool_gc-IsCollectable :
    (parse_time : Text → Option ℤ) (hash_ten : Text → Text) (c : GcConfig) (w : GcWorld)
    (s : GcState) (k : Key)
    → In k (reconcile_managed_pool_gc parse_time hash_ten c w s).1.deleted_pools
    → In k s.deleted_pools ⊎ IsCollectable parse_time c w k
unfolding reconcile_managed_pool_gc
reconcile_managed_pool_gc-IsCollectable parse_time hash_ten c w s k i =
    elim (Bool-cases (not c.enabled)) [
      | inl t ↦ inl (rw t at i)
      | inr f ↦ elim (Result-cases (managed_pool_references c.namespace w.sessions w.claims)) [
        | inl (e, r) ↦ inl (rw (f, r) at i)
        | inr (references, r) ↦
            with_references parse_time hash_ten c w references s k r (rw (f, r) at i)
      ]
    ]
