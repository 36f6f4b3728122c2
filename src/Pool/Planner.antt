-- ===== src/Pool/Planner.antt =====
-- Planning a session's allocation: tryPlanSessionAllocation, planSessionAllocation,
-- waitForWarmCapacity and scalePoolForQueuedDemand of pkg/gateway/pool_policy.go. The answers of the
-- API server, the clock and the context are parameters: a wait is a list of the moments at which its
-- `select` fires.
pub mod Scaling
pub mod Waiting
pub mod Promises
use agent_env.Base.{
  ℕ, zero, suc, ◌+◌, ◌-◌, ◌*◌, ◌%◌, ◌≤◌, ◌<◌, ◌≡◌, ◌≢◌, refl, sym, ap, ap₂, subst, ◌∙◌, Bool, true,
  false, not, ◌&&◌, ◌||◌, if◌then◌else◌, Option, none, some, List, [], ◌∷◌, ◌++◌, map, ◌==◌, get_or,
  select, inl, inr, ◌⊎◌, ◌↔◌, length, arith, Bool-cases, Option-cases, In, All, All-In, eqb, ltb,
  leb, is_some,
}
use agent_env.Kube.{Key, Key_eq, ObjectMeta, WarmPool}
use agent_env.Pool.Snapshot.{
  PoolSnapshot, desired_replicas_of, pool_state_annotation, pool_autoscale_annotation,
  pool_last_used_annotation, pool_state_running,
}
use agent_env.Pool.Selector.{
  ResourceIntent, PoolSelection, AdmissionDecision, no_decision, PolicyError, at_capacity,
  deadline_exceeded, Result, ok, err, select_pool, admit, profile_capacity,
}
use agent_env.Pool.Index.{PoolIndex, upsert_pool, count_of}
use agent_env.Pool.Autoscaler.{AutoscalerConfig, pool_autoscale_target, autoscaling_off}
use agent_env.Pool.Queue.{increment_admission_queue, decrement_admission_queue}
use agent_env.Base.Int.{ℤ, ℤ_eq, pos, ltb_ℤ}
use agent_env.Base.Text.{Text, Text_eq, codes, is_empty, trim_space}
use agent_env.Base.Table.{Table, insert, delete}

-- The three results of a plan. The zero selection and decision stand beside an early error.
pub record Plan : Type 0 where
  pub selection : PoolSelection
  pub decision : AdmissionDecision
  pub error : Option PolicyError

abbrev no_snapshot : PoolSnapshot
no_snapshot = record {
  name = [];
  namespace = [];
  profile = [];
  image = [];
  desired_replicas = pos 0;
  ready_replicas = pos 0;
  allocated_replicas = pos 0;
}

abbrev pub no_selection : PoolSelection
no_selection = record {
  pool_name = [];
  namespace = [];
  reason = profile_capacity;
  pool = no_snapshot;
}

abbrev pub failed : PolicyError → Plan
failed e = record {
  selection = no_selection;
  decision = record { admitted = false; reason = no_decision; warm = pos 0 };
  error = some e;
}

-- The admission's decision and error, and the refusal that it does not report itself.
unfoldable pub plan_admission : PoolSelection → AdmissionDecision × Option PolicyError → Plan
plan_admission s (d, some e) = record { selection = s; decision = d; error = some e }
plan_admission s (d, none) = record {
  selection = s;
  decision = d;
  error = if not d.admitted then some at_capacity else none;
}

unfoldable pub plan_selection : ResourceIntent → Result PoolSelection → Plan
unfolding plan_admission
plan_selection intent (err e) = failed e
plan_selection intent (ok s) = plan_admission s (admit intent s)

-- tryPlanSessionAllocation, with the snapshots that it took.
unfoldable pub try_plan : ResourceIntent → Result (List PoolSnapshot) → Plan
unfolding plan_selection
try_plan intent (err e) = failed e
try_plan intent (ok pools) = plan_selection intent (select_pool intent pools)

-- applyPoolStateMetadata with a state that is a valid label value, as `running` is.
unfoldable pub apply_pool_state_metadata : Text → ObjectMeta → ObjectMeta
apply_pool_state_metadata state meta =
    let value = trim_space state in
    if is_empty value then meta else record meta {
      annotations = insert pool_state_annotation value meta.annotations;
      labels = insert pool_state_annotation value meta.labels;
    }

-- applyPoolLastUsedMetadata; `now` is the time's RFC 3339 text.
unfoldable pub apply_pool_last_used_metadata : Text → ObjectMeta → ObjectMeta
apply_pool_last_used_metadata now meta = record meta {
  annotations = insert pool_last_used_annotation now meta.annotations;
}

-- The pool that scalePoolForQueuedDemand patches in.
unfoldable pub woken : Text → ℤ → WarmPool → WarmPool
unfolding apply_pool_state_metadata apply_pool_last_used_metadata
woken now target pool =
    let meta =
      apply_pool_last_used_metadata now (apply_pool_state_metadata pool_state_running pool.meta) in
    record pool {
      replicas = some target;
      meta = record meta { annotations = delete pool_autoscale_annotation meta.annotations };
    }

unfoldable pub queued_target : AutoscalerConfig → ℤ → ℤ
queued_target c queued =
    let target = pool_autoscale_target c queued in if ltb_ℤ target (pos 1) then pos 1 else target

-- What the API server says at a moment: the pool that is read, and the answer to its patch.
pub record PoolServer : Type 0 where
  pub now : Text
  pub get : Result WarmPool
  pub patch : WarmPool → Option PolicyError

unfoldable pub scale_found : AutoscalerConfig → ℤ → PoolServer → WarmPool → Result (Option WarmPool)
unfolding queued_target woken
scale_found c queued server pool =
    let target = queued_target c queued in
    if ltb_ℤ (desired_replicas_of pool) target || autoscaling_off pool.meta
    then elim (server.patch (woken server.now target pool)) [
      | some e ↦ err e
      | none ↦ ok (some (woken server.now target pool))
    ]
    else ok none

-- scalePoolForQueuedDemand: the pool that it patched, if it had to.
unfoldable pub scale_pool_for_queued_demand :
    AutoscalerConfig → Table Key ℤ → Key → PoolServer → Result (Option WarmPool)
unfolding scale_found count_of
scale_pool_for_queued_demand c depth key server = elim (server.get) [
  | err e ↦ err e
  | ok pool ↦ scale_found c (count_of key depth) server pool
]

-- The gateway's part that a plan changes.
pub record PlannerState : Type 0 where
  pub depth : Table Key ℤ
  pub index : Option PoolIndex

-- `if g.poolIndex != nil { g.poolIndex.upsertPool(pool) }` after a patch.
unfoldable pub note_scaled : Option WarmPool → PlannerState → PlannerState
note_scaled none s = s
note_scaled (some pool) s = record s {
  index = elim (s.index) [ none ↦ none | some idx ↦ some (upsert_pool pool idx) ];
}

-- A moment of the wait: the context ends, or the ticker fires, and then whether the context has
-- ended too, the snapshots that the next try takes and the server that a scaling meets.
pub data Moment : Type 0 where
  context_done : PolicyError → Moment
  ticker : Option PolicyError → Result (List PoolSnapshot) → PoolServer → Moment

unfoldable pub is_at_capacity : PolicyError → Bool
is_at_capacity at_capacity = true
is_at_capacity _ = false

unfoldable pub is_deadline : PolicyError → Bool
is_deadline deadline_exceeded = true
is_deadline _ = false

-- waitErr: a deadline of the request's own is reported as a lack of capacity.
unfoldable pub wait_err : ResourceIntent → PolicyError → PolicyError
unfolding is_deadline
wait_err intent e =
    if is_deadline e && ltb_ℤ (pos 0) intent.allocation_timeout then at_capacity else e

-- The rest of a tick whose try met an error: any but a lack of capacity ends the wait, and so does a
-- scaling that fails. `later` is the wait after this tick.
unfoldable pub after_try :
    AutoscalerConfig
    → Key
    → PoolServer
    → Plan
    → PlannerState
    → (PlannerState → Option (Plan × PlannerState))
    → Option (Plan × PlannerState)
unfolding is_at_capacity scale_pool_for_queued_demand note_scaled
after_try c key server next s later = elim (next.error) [
  | none ↦ some (next, s)
  | some e ↦
      if not (is_at_capacity e)
      then some (next, s)
      else elim (scale_pool_for_queued_demand c s.depth key server) [
        | err x ↦ some (record next { error = some x }, s)
        | ok patched ↦ later (note_scaled patched s)
      ]
]

-- The loop of waitForWarmCapacity; `none` while the moments run out before it returns.
unfoldable pub wait_loop :
    AutoscalerConfig
    → ResourceIntent
    → Key
    → List Moment
    → Plan
    → PlannerState
    → Option (Plan × PlannerState)
unfolding wait_err try_plan after_try
wait_loop c intent key [] plan s = none
wait_loop c intent key (context_done e ∷ ms) plan s =
    some (record plan { error = some (wait_err intent e) }, s)
wait_loop c intent key (ticker (some e) snapshots server ∷ ms) plan s =
    some (record plan { error = some (wait_err intent e) }, s)
wait_loop c intent key (ticker none snapshots server ∷ ms) plan s =
    let next = try_plan intent snapshots in
    after_try c key server next s (wait_loop c intent key ms next)

-- The deferred decrementAdmissionQueue.
unfoldable pub leave_queue : Key → Option (Plan × PlannerState) → Option (Plan × PlannerState)
leave_queue key none = none
leave_queue key (some (plan, s)) =
    some (plan, record s { depth = decrement_admission_queue key s.depth })

abbrev pub queue_key : PoolSelection → Key
queue_key s = record { namespace = s.namespace; name = s.pool_name }

unfoldable pub enter_queue : Key → PlannerState → PlannerState
enter_queue key s = record s { depth = increment_admission_queue key s.depth }

-- waitForWarmCapacity: `first` is the server that the scaling before the loop meets.
unfoldable pub wait_for_warm_capacity :
    AutoscalerConfig
    → ResourceIntent
    → PoolServer
    → List Moment
    → Plan
    → PlannerState
    → Option (Plan × PlannerState)
unfolding wait_loop leave_queue enter_queue scale_pool_for_queued_demand note_scaled
wait_for_warm_capacity c intent first moments plan s =
    let key = queue_key plan.selection in
    let queued = enter_queue key s in
    if is_empty plan.selection.pool_name
    then some (record plan { error = some at_capacity }, s)
    else leave_queue key (elim (scale_pool_for_queued_demand c queued.depth key first) [
      | err x ↦ some (record plan { error = some x }, queued)
      | ok patched ↦ wait_loop c intent key moments plan (note_scaled patched queued)
    ])

-- planSessionAllocation; `ended` says whether the context has ended after the first try.
unfoldable pub plan_session_allocation :
    AutoscalerConfig
    → ResourceIntent
    → Result (List PoolSnapshot)
    → Bool
    → PoolServer
    → List Moment
    → PlannerState
    → Option (Plan × PlannerState)
unfolding try_plan wait_for_warm_capacity is_at_capacity
plan_session_allocation c intent snapshots ended first moments s =
    let plan = try_plan intent snapshots in
    let wait = wait_for_warm_capacity c intent first moments plan s in
    elim (plan.error) [
      | none ↦ some (plan, s)
      | some e ↦ if ended || not (is_at_capacity e) then some (plan, s) else wait
    ]
