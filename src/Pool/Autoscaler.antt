-- ===== src/Pool/Autoscaler.antt =====
-- Warm-pool sizing: pkg/gateway/pool_autoscaler.go. One pass of the control loop is a fold over the
-- listed pools; the API server's answer to each patch is a parameter.
pub mod Target
pub mod Pass
use agent_env.Base.{
  ℕ, zero, suc, ◌+◌, ◌-◌, ◌*◌, ◌%◌, ◌≤◌, ◌<◌, ◌≡◌, ◌≢◌, refl, sym, ap, ap₂, subst, ◌∙◌, Bool, true,
  false, not, ◌&&◌, ◌||◌, if◌then◌else◌, Option, none, some, List, [], ◌∷◌, ◌++◌, map, ◌==◌, get_or,
  select, inl, inr, ◌⊎◌, ◌↔◌, length, arith, Bool-cases, Option-cases, In, All, All-In, eqb, ltb,
  leb, is_some,
}
use agent_env.Kube.{ObjectMeta, Key, Key_eq, meta_key, WarmPool}
use agent_env.Pool.Snapshot.{
  desired_replicas_of, pool_state_annotation, pool_state_stopped, pool_state_draining,
  pool_autoscale_annotation,
}
use agent_env.Pool.Selector.{Result, ok, err, PolicyError}
use agent_env.Pool.Index.{count_of}
use agent_env.Base.Int.{ℤ, ℤ_eq, pos, ltb_ℤ, ◌+ℤ◌, wrap_int32}
use agent_env.Base.Text.{Text, Text_eq, codes, trim_space, to_lower}
use agent_env.Base.Table.{Table, lookup, lookup_or}

-- The autoscaler's part of GatewayConfig; the three are int32.
pub record AutoscalerConfig : Type 0 where
  pub buffer : ℤ
  pub min_replicas : ℤ
  pub max_replicas : ℤ

abbrev pub non_negative : ℤ → ℤ
non_negative a = if ltb_ℤ a (pos 0) then pos 0 else a

-- The two comparisons at the end of poolAutoscaleTarget.
unfoldable pub within_limits : ℤ → ℤ → ℤ → ℤ
within_limits min_replicas max_replicas target =
    let at_least = if ltb_ℤ target min_replicas then min_replicas else target in
    if ltb_ℤ (pos 0) max_replicas && ltb_ℤ max_replicas at_least then max_replicas else at_least

-- poolAutoscaleTarget; the sum of two int32 wraps.
unfoldable pub pool_autoscale_target : AutoscalerConfig → ℤ → ℤ
unfolding wrap_int32 ◌+ℤ◌ within_limits
pool_autoscale_target c queued_requests =
    within_limits (non_negative c.min_replicas) (non_negative c.max_replicas)
      (wrap_int32 (non_negative queued_requests +ℤ non_negative c.buffer))

-- poolAutoscalingDisabled, which reads two annotations.
unfoldable pub autoscaling_off : ObjectMeta → Bool
autoscaling_off meta =
    let state = to_lower (trim_space (lookup_or [] pool_state_annotation meta.annotations)) in
    let value = to_lower (trim_space (lookup_or [] pool_autoscale_annotation meta.annotations)) in
    (state == pool_state_stopped || state == pool_state_draining)
    || (value == codes "false" || value == codes "disabled" || value == codes "off")

unfoldable pub pool_autoscaling_disabled : WarmPool → Bool
unfolding autoscaling_off
pool_autoscaling_disabled pool = autoscaling_off pool.meta

unfoldable pub with_replicas : ℤ → WarmPool → WarmPool
with_replicas n pool = record pool { replicas = some n }

-- The body of reconcilePoolAutoscaling's loop: the pool as it is left, and the error of its patch.
-- `answers` is what the API server says to a patch; a refused patch changes nothing.
unfoldable pub reconcile_pool :
    AutoscalerConfig
    → Table Key ℤ
    → (WarmPool → Option PolicyError)
    → WarmPool
    → WarmPool × Option PolicyError
unfolding pool_autoscaling_disabled pool_autoscale_target with_replicas count_of
reconcile_pool c queued answers pool =
    let target = pool_autoscale_target c (count_of (meta_key pool.meta) queued) in
    if pool_autoscaling_disabled pool
    then (pool, none)
    else if target == desired_replicas_of pool
    then (pool, none)
    else elim (answers (with_replicas target pool)) [
      | some e ↦ (pool, some e)
      | none ↦ (with_replicas target pool, none)
    ]

-- The loop, which ends at the first error.
unfoldable pub reconcile_pools :
    AutoscalerConfig
    → Table Key ℤ
    → (WarmPool → Option PolicyError)
    → List WarmPool
    → List WarmPool × Option PolicyError
unfolding reconcile_pool
reconcile_pools c queued answers [] = ([], none)
reconcile_pools c queued answers (pool ∷ pools) =
    let rest = reconcile_pools c queued answers pools in
    let done = reconcile_pool c queued answers pool in
    elim (done.1) [ some e ↦ (pool ∷ pools, some e) | none ↦ (done.0 ∷ rest.0, rest.1) ]
