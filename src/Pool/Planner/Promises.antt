-- ===== src/Pool/Planner/Promises.antt =====
-- The promises of planSessionAllocation.
use agent_env.Base.{
  ◌<◌, ◌≡◌, refl, sym, ap, subst, ◌∙◌, Bool, false, not, ◌||◌, Option, none, some, List, [], ◌∷◌,
  inl, inr, length, arith, Bool-cases, Option-cases,
}
use agent_env.Kube.{Key, Key_eq, key_eq}
use agent_env.Pool.Selector.{ResourceIntent, Result}
use agent_env.Pool.Snapshot.{PoolSnapshot}
use agent_env.Pool.Autoscaler.{AutoscalerConfig}
use agent_env.Pool.Queue.{increment_admission_queue, decrement_admission_queue}
use agent_env.Pool.Queue.Depth.{
  Serves, queue_depth, waiters_for, waiters_for-le, increment_at, decrement_at, increment_other,
  decrement_other,
}
use agent_env.Pool.Planner.{
  Plan, try_plan, PoolServer, PlannerState, Moment, context_done, ticker, after_try, wait_loop,
  leave_queue, enter_queue, wait_for_warm_capacity, plan_session_allocation, is_at_capacity,
  queue_key, note_scaled, scale_pool_for_queued_demand,
}
use agent_env.Pool.Planner.Waiting.{IsGranted, IsLeft, Ends, plan-Ends, Result-cases}
use agent_env.Base.Text.{is_empty}
use agent_env.Base.Table.{lookup}

module _ (c : AutoscalerConfig) (intent : ResourceIntent) (snapshots : Result (List PoolSnapshot))
    (ended : Bool) (first : PoolServer) (ms : List Moment) (s : PlannerState) where
  -- A plan that returns without an error was admitted: its pool has a ready replica, or the request
  -- brings an environment and may start cold. So at once, and after any wait.
  pub plan_session_allocation-IsGranted :
      (p : Plan) (t : PlannerState)
      → plan_session_allocation c intent snapshots ended first ms s ≡ some (p, t)
      → IsGranted intent p
  plan_session_allocation-IsGranted p t e =
      (subst (Ends (λ r. IsGranted intent r.0 × IsLeft c intent s.depth r.1.depth)) e
        (plan-Ends c intent snapshots ended first ms s)).0

  came_and_went :
      (ws : List Key) (key j : Key)
      → Serves ws s.depth
      → length ws < 2147483646
      → is_empty j.name ≡ false
      → lookup j (decrement_admission_queue key (increment_admission_queue key s.depth))
        ≡ lookup j s.depth
  came_and_went ws key j v room ne = elim (Bool-cases (key_eq key j)) [
    | inl e ↦
        let n = waiters_for j ws in
        decrement_at key j _ n e (omega (arith, waiters_for-le j ws)) ne (
          increment_at key j s.depth n e (omega (arith, waiters_for-le j ws)) ne
            (queue_depth ws s.depth j v ne))
        ∙ sym (queue_depth ws s.depth j v ne)
    | inr e ↦ decrement_other key j _ e ∙ increment_other key j s.depth e
  ]

  -- Every plan that returns, on any path, leaves the number of waiting requests of every named pool
  -- as it found it, where the queue serves fewer than 2^31 - 2 requests before.
  pub plan_session_allocation_queue :
      (p : Plan) (t : PlannerState) (ws : List Key) (j : Key)
      → plan_session_allocation c intent snapshots ended first ms s ≡ some (p, t)
      → Serves ws s.depth
      → length ws < 2147483646
      → is_empty j.name ≡ false
      → lookup j t.depth ≡ lookup j s.depth
  plan_session_allocation_queue p t ws j e v room ne =
      elim ((subst (Ends (λ r. IsGranted intent r.0 × IsLeft c intent s.depth r.1.depth)) e
        (plan-Ends c intent snapshots ended first ms s)).1) [
          | inl q ↦ ap (lookup j) q
          | inr (key, k, q) ↦ ap (lookup j) q ∙ came_and_went ws key j v room ne
        ]

-- The context of the wait ends at some moment.
abbrev pub HasEnd : List Moment → Type 0
HasEnd [] = ⊥
HasEnd (context_done e ∷ ms) = Unit
HasEnd (ticker (some e) r server ∷ ms) = Unit
HasEnd (ticker none r server ∷ ms) = HasEnd ms

abbrev pub Returns : Option (Plan × PlannerState) → Type 0
Returns r = (x : Plan × PlannerState) × (r ≡ some x)

module _ (c : AutoscalerConfig) (intent : ResourceIntent) where
  after_try-Returns :
      (key : Key) (server : PoolServer) (next : Plan) (s : PlannerState)
      (later : PlannerState → Option (Plan × PlannerState))
      → ((t : PlannerState) → Returns (later t))
      → Returns (after_try c key server next s later)
  unfolding after_try
  after_try-Returns key server next s later l = elim (Option-cases next.error) [
    | inl e ↦ rw (e, after_try) ((next, s), refl)
    | inr (x, e) ↦ elim (Bool-cases (is_at_capacity x)) [
      | inr f ↦ rw (e, after_try) (rw f ((next, s), refl))
      | inl t ↦
          rw (e, after_try)
            (rw t (elim (Result-cases (scale_pool_for_queued_demand c s.depth key server)) [
              | inl (p, q) ↦ rw q (l (note_scaled p s))
              | inr (y, q) ↦ rw q ((record next { error = some y }, s), refl)
            ]))
    ]
  ]

  wait_loop-Returns :
      (key : Key) (ms : List Moment) (plan : Plan) (s : PlannerState)
      → HasEnd ms
      → Returns (wait_loop c intent key ms plan s)
  unfolding wait_loop
  wait_loop-Returns key [] plan s h = absurd h
  wait_loop-Returns key (context_done e ∷ ms) plan s h = (_, refl)
  wait_loop-Returns key (ticker (some e) r server ∷ ms) plan s h = (_, refl)
  wait_loop-Returns key (ticker none r server ∷ ms) plan s h =
      after_try-Returns key server (try_plan intent r) s _
        (λ t. wait_loop-Returns key ms (try_plan intent r) t h)

  leave_queue-Returns :
      (key : Key) (r : Option (Plan × PlannerState)) → Returns r → Returns (leave_queue key r)
  unfolding leave_queue
  leave_queue-Returns key none h = absurd (cc (h.1))
  leave_queue-Returns key (some (p, t)) h = (_, refl)

  wait_for_warm_capacity-Returns :
      (first : PoolServer) (ms : List Moment) (plan : Plan) (s : PlannerState)
      → HasEnd ms
      → Returns (wait_for_warm_capacity c intent first ms plan s)
  unfolding wait_for_warm_capacity
  wait_for_warm_capacity-Returns first ms plan s h =
      let key = queue_key plan.selection in
      let queued = enter_queue key s in
      elim (Bool-cases (is_empty plan.selection.pool_name)) [
        | inl e ↦ rw e (_, refl)
        | inr e ↦ rw e (
            leave_queue-Returns key _
              (elim (Result-cases (scale_pool_for_queued_demand c queued.depth key first)) [
                | inl (p, q) ↦ rw q (wait_loop-Returns key ms plan (note_scaled p queued) h)
                | inr (x, q) ↦ rw q ((record plan { error = some x }, queued), refl)
              ]))
      ]

  -- A plan returns whenever the context of its wait ends at some moment.
  pub plan_session_allocation-Returns :
      (snapshots : Result (List PoolSnapshot)) (ended : Bool) (first : PoolServer)
      (ms : List Moment) (s : PlannerState)
      → HasEnd ms
      → Returns (plan_session_allocation c intent snapshots ended first ms s)
  unfolding plan_session_allocation
  plan_session_allocation-Returns snapshots ended first ms s h =
      let plan = try_plan intent snapshots in
      elim (Option-cases plan.error) [
        | inl e ↦ rw (e, plan_session_allocation) ((plan, s), refl)
        | inr (x, e) ↦ elim (Bool-cases (ended || not (is_at_capacity x))) [
          | inl t ↦ rw (e, plan_session_allocation) (rw t ((plan, s), refl))
          | inr f ↦
              rw (e, plan_session_allocation)
                (rw f (wait_for_warm_capacity-Returns first ms plan s h))
        ]
      ]
