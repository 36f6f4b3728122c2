-- ===== src/Pool/Planner/Waiting.antt =====
-- The results that the wait of waitForWarmCapacity can end with.
use agent_env.Base.Text.{is_empty}
use agent_env.Pool.Queue.{decrement_admission_queue, increment_admission_queue}
use agent_env.Base.Table.{Table}
use agent_env.Base.{
  [], ◌≡◌, refl, true, Option, none, some, List, inl, inr, ◌⊎◌, arith, Bool-cases, Option-cases,
  ◌∷◌, ap, false, ◌∙◌, Bool, ◌||◌, not,
}
use agent_env.Kube.{Key, Key_eq, WarmPool}
use agent_env.Pool.Snapshot.{PoolSnapshot, warm_available}
use agent_env.Pool.Selector.{
  ResourceIntent, PoolSelection, PolicyError, Result, ok, err, select_pool, admit, at_capacity,
}
use agent_env.Pool.Autoscaler.{AutoscalerConfig}
use agent_env.Pool.Planner.{
  Plan, plan_selection, try_plan, PoolServer, PlannerState, after_try, note_scaled, is_at_capacity,
  scale_pool_for_queued_demand, wait_loop, leave_queue, wait_for_warm_capacity, Moment, queue_key,
  context_done, wait_err, enter_queue, ticker, plan_session_allocation,
}
use agent_env.Base.Int.{pos, ◌<ℤ◌, ℤ}

-- A plan without an error names a pool with a warm replica, or is for a claim that starts cold.
abbrev pub IsGranted : ResourceIntent → Plan → Type 0
IsGranted intent p =
    p.error ≡ none
    → (p.decision.admitted ≡ true)
      × ((intent.claim_env ≡ true) ⊎ (pos 0 <ℤ p.selection.pool.ready_replicas))

plan_selection-IsGranted :
    (intent : ResourceIntent) (r : Result PoolSelection)
    → IsGranted intent (plan_selection intent r)
unfolding plan_selection admit warm_available
plan_selection-IsGranted intent (err e) h = cc
plan_selection-IsGranted intent (ok s) h = ground arith

try_plan-IsGranted :
    (intent : ResourceIntent) (r : Result (List PoolSnapshot))
    → IsGranted intent (try_plan intent r)
unfolding try_plan
try_plan-IsGranted intent (err e) h = cc
try_plan-IsGranted intent (ok pools) h =
    plan_selection-IsGranted intent (select_pool intent pools) h

pub Result-cases :
    {A : Type 0} (r : Result A) → ((a : A) × (r ≡ ok a)) ⊎ ((e : PolicyError) × (r ≡ err e))
Result-cases (ok a) = inl (a, refl)
Result-cases (err e) = inr (e, refl)

note_scaled_depth : (p : Option WarmPool) (s : PlannerState) → (note_scaled p s).depth ≡ s.depth
unfolding note_scaled
note_scaled_depth none s = refl
note_scaled_depth (some p) s = refl

-- The plan that a wait ends with, if it ends.
abbrev pub Ends : (Plan × PlannerState → Type 0) → Option (Plan × PlannerState) → Type 0
Ends P none = Unit {0}
Ends P (some r) = P r

pub Ends-map :
    (P Q : Plan × PlannerState → Type 0)
    → ((r : Plan × PlannerState) → P r → Q r)
    → (r : Option (Plan × PlannerState)) → Ends P r
    → Ends Q r
Ends-map P Q f none h = tt
Ends-map P Q f (some r) h = f r h

module _ (c : AutoscalerConfig) (intent : ResourceIntent) (key : Key) where
  after_try-Ends :
      (P : Plan × PlannerState → Type 0) (server : PoolServer) (next : Plan) (s : PlannerState)
      (later : PlannerState → Option (Plan × PlannerState))
      → P (next, s)
      → ((x : PolicyError) → P (record next { error = some x }, s))
      → ((t : PlannerState) → t.depth ≡ s.depth → Ends P (later t))
      → Ends P (after_try c key server next s later)
  unfolding after_try
  after_try-Ends P server next s later h k l = elim (Option-cases next.error) [
    | inl e ↦ rw (e, after_try) h
    | inr (x, e) ↦ elim (Bool-cases (is_at_capacity x)) [
      | inr f ↦ rw (e, after_try) (rw f h)
      | inl t ↦
          rw (e, after_try)
            (rw t (elim (Result-cases (scale_pool_for_queued_demand c s.depth key server)) [
              | inl (p, q) ↦ rw q (l (note_scaled p s) (note_scaled_depth p s))
              | inr (y, q) ↦ rw q (k y)
            ]))
    ]
  ]

  wait_loop-Ends :
      (P : Plan → Type 0) (d : Table Key ℤ)
      → ((r : Result (List PoolSnapshot)) → P (try_plan intent r))
      → ((p : Plan) (x : PolicyError) → P (record p { error = some x }))
      → (ms : List Moment) (plan : Plan) (s : PlannerState) → s.depth ≡ d
      → Ends (λ r. P r.0 × (r.1.depth ≡ d)) (wait_loop c intent key ms plan s)
  unfolding wait_loop
  wait_loop-Ends P d try fail [] plan s h = tt
  wait_loop-Ends P d try fail (context_done e ∷ ms) plan s h = (fail plan (wait_err intent e), h)
  wait_loop-Ends P d try fail (ticker (some e) r server ∷ ms) plan s h =
      (fail plan (wait_err intent e), h)
  wait_loop-Ends P d try fail (ticker none r server ∷ ms) plan s h =
      after_try-Ends (λ x. P x.0 × (x.1.depth ≡ d)) server (try_plan intent r) s
        (wait_loop c intent key ms (try_plan intent r)) (try r, h)
        (λ x. (fail (try_plan intent r) x, h))
        (λ t e. wait_loop-Ends P d try fail ms (try_plan intent r) t (e ∙ h))

-- The wait's result, with the queue left.
leave_queue-Ends :
    (key : Key) (P : Plan → Type 0) (d : Table Key ℤ) (r : Option (Plan × PlannerState))
    → Ends (λ x. P x.0 × (x.1.depth ≡ d)) r
    → Ends (λ x. P x.0 × (x.1.depth ≡ decrement_admission_queue key d)) (leave_queue key r)
unfolding leave_queue
leave_queue-Ends key P d none h = tt
leave_queue-Ends key P d (some (p, s)) h = (h.0, ap (decrement_admission_queue key) h.1)

module _ (c : AutoscalerConfig) (intent : ResourceIntent) where
  -- The queue's map after a plan: as it was, or after one request came and went.
  abbrev pub IsLeft : Table Key ℤ → Table Key ℤ → Type 0
  IsLeft d d' =
      (d' ≡ d)
      ⊎ ((key : Key) × (is_empty key.name ≡ false)
          × (d' ≡ decrement_admission_queue key (increment_admission_queue key d)))

  wait-Ends :
      (P : Plan → Type 0)
      → ((r : Result (List PoolSnapshot)) → P (try_plan intent r))
      → ((p : Plan) (x : PolicyError) → P (record p { error = some x }))
      → (first : PoolServer) (ms : List Moment) (plan : Plan) (s : PlannerState)
      → Ends
          (λ r. P r.0 × IsLeft s.depth r.1.depth)
          (wait_for_warm_capacity c intent first ms plan s)
  unfolding wait_for_warm_capacity enter_queue
  wait-Ends P try fail first ms plan s =
      let key = queue_key plan.selection in
      let queued = enter_queue key s in
      elim (Bool-cases (is_empty plan.selection.pool_name)) [
        | inl e ↦ rw e (fail plan at_capacity, inl refl)
        | inr e ↦ rw e (
            Ends-map _ (λ r. P r.0 × IsLeft s.depth r.1.depth) (λ r h. (h.0, inr (key, e, h.1))) _
              (leave_queue-Ends key P queued.depth _
                (elim (Result-cases (scale_pool_for_queued_demand c queued.depth key first)) [
                  | inl (p, q) ↦ rw q (
                      wait_loop-Ends c intent key P queued.depth try fail ms plan
                        (note_scaled p queued) (note_scaled_depth p queued))
                  | inr (x, q) ↦ rw q (fail plan x, refl)
                ])))
      ]

  -- Every plan that comes to an end is granted or an error, and leaves the admission queue as a
  -- request does that never waited or that came and went.
  pub plan-Ends :
      (snapshots : Result (List PoolSnapshot)) (ended : Bool) (first : PoolServer)
      (ms : List Moment) (s : PlannerState)
      → Ends
          (λ r. IsGranted intent r.0 × IsLeft s.depth r.1.depth)
          (plan_session_allocation c intent snapshots ended first ms s)
  unfolding plan_session_allocation
  plan-Ends snapshots ended first ms s =
      let plan = try_plan intent snapshots in
      let granted = try_plan-IsGranted intent snapshots in
      elim (Option-cases plan.error) [
        | inl e ↦ rw (e, plan_session_allocation) (granted, inl refl)
        | inr (x, e) ↦ elim (Bool-cases (ended || not (is_at_capacity x))) [
          | inl t ↦ rw (e, plan_session_allocation) (rw t (granted, inl refl))
          | inr f ↦
              rw (e, plan_session_allocation)
                (rw f (
                  wait-Ends (IsGranted intent) (try_plan-IsGranted intent) (λ p y h. cc) first ms
                    plan s))
        ]
      ]
