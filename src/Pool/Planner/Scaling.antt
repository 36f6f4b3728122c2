-- ===== src/Pool/Planner/Scaling.antt =====
-- Scaling a pool for requests that wait.
use agent_env.Base.{
  ◌≡◌, ◌∙◌, false, none, some, Option, get_or, arith, Bool-cases, ◌||◌, inl, Option-cases, Bool,
  true, subst, sym, inr, refl,
}
use agent_env.Kube.{WarmPool}
use agent_env.Pool.Snapshot.{
  desired_replicas_of, pool_state_annotation, pool_autoscale_annotation, pool_last_used_annotation,
  pool_state_running,
}
use agent_env.Pool.Selector.{ok, err, PolicyError}
use agent_env.Pool.Autoscaler.{autoscaling_off, AutoscalerConfig}
use agent_env.Pool.Planner.{woken, queued_target, scale_found, PoolServer}
use agent_env.Base.Int.{ℤ, ◌≤ℤ◌, pos, ltb_ℤ}
use agent_env.Base.Text.{Text, Text_eq, text_eq, trim_space, to_lower}
use agent_env.Base.Table.{lookup, lookup-insert, lookup-delete}

module _ (now : Text) (target : ℤ) (pool : WarmPool) where
  woken_state :
      lookup pool_state_annotation (woken now target pool).meta.annotations
      ≡ some pool_state_running
  unfolding woken text_eq trim_space
  woken_state =
      lookup-delete pool_autoscale_annotation pool_state_annotation _
      ∙ lookup-insert pool_last_used_annotation pool_state_annotation now _
      ∙ lookup-insert pool_state_annotation pool_state_annotation pool_state_running
          pool.meta.annotations

  woken_autoscale : lookup pool_autoscale_annotation (woken now target pool).meta.annotations ≡ none
  unfolding woken text_eq
  woken_autoscale = lookup-delete pool_autoscale_annotation pool_autoscale_annotation _

  -- The annotations that stop the autoscaler are gone.
  woken_on : autoscaling_off (woken now target pool).meta ≡ false
  unfolding autoscaling_off text_eq to_lower trim_space
  woken_on = simp (woken_state, woken_autoscale)

-- The pool after the scaling: the patched one, or the one that was read.
abbrev pub scaled : WarmPool → Option WarmPool → WarmPool
scaled pool r = get_or r pool

-- The pool serves the queue: autoscaling is on, and it asks for the target and at least one replica.
pub record IsAwake (c : AutoscalerConfig) (queued : ℤ) (pool : WarmPool) : Type 0 where
  pub on : autoscaling_off pool.meta ≡ false
  pub enough : queued_target c queued ≤ℤ desired_replicas_of pool
  pub some_replica : pos 1 ≤ℤ desired_replicas_of pool

queued_target_pos : (c : AutoscalerConfig) (q : ℤ) → pos 1 ≤ℤ queued_target c q
unfolding queued_target
queued_target_pos c q = ground arith

woken_desired :
    (now : Text) (target : ℤ) (pool : WarmPool)
    → desired_replicas_of (woken now target pool) ≡ target
unfolding desired_replicas_of woken
woken_desired now target pool = refl

woken-IsAwake :
    (c : AutoscalerConfig) (q : ℤ) (now : Text) (pool : WarmPool)
    → IsAwake c q (woken now (queued_target c q) pool)
woken-IsAwake c q now pool = record {
  on = woken_on now (queued_target c q) pool;
  enough = rw (woken_desired now (queued_target c q) pool) (omega arith);
  some_replica = rw (woken_desired now (queued_target c q) pool) (queued_target_pos c q);
}

ok_injective : {A : Type 0} {a b : A} → ok a ≡ ok b → a ≡ b
ok_injective e = cc

needs_patch : AutoscalerConfig → ℤ → WarmPool → Bool
needs_patch c q pool =
    ltb_ℤ (desired_replicas_of pool) (queued_target c q) || autoscaling_off pool.meta

module _ (c : AutoscalerConfig) (q : ℤ) (server : PoolServer) (pool : WarmPool) where
  patched_lem :
      needs_patch c q pool ≡ true
      → server.patch (woken server.now (queued_target c q) pool) ≡ none
      → scale_found c q server pool ≡ ok (some (woken server.now (queued_target c q) pool))
  unfolding needs_patch scale_found
  patched_lem t e = rw t (rw e refl)

  refused_lem :
      {x : PolicyError}
      → needs_patch c q pool ≡ true
      → server.patch (woken server.now (queued_target c q) pool) ≡ some x
      → scale_found c q server pool ≡ err x
  unfolding needs_patch scale_found
  refused_lem t e = rw t (rw e refl)

  kept_lem : needs_patch c q pool ≡ false → scale_found c q server pool ≡ ok none
  unfolding needs_patch scale_found
  kept_lem f = rw f refl

  kept-IsAwake : needs_patch c q pool ≡ false → IsAwake c q pool
  unfolding needs_patch
  kept-IsAwake f = ground (arith, queued_target_pos c q)

  woken-ge :
      needs_patch c q pool ≡ true
      → autoscaling_off pool.meta ≡ false
      → desired_replicas_of pool ≤ℤ queued_target c q
  unfolding needs_patch
  woken-ge t o = ground arith

-- A scaling for queued demand that succeeds leaves a pool that serves the queue, whatever its state
-- was, and takes no replicas from a pool that was on.
pub scale_found-IsAwake :
    (c : AutoscalerConfig) (q : ℤ) (server : PoolServer) (pool : WarmPool) (r : Option WarmPool)
    → scale_found c q server pool ≡ ok r
    → IsAwake c q (scaled pool r)
      × (autoscaling_off pool.meta ≡ false
          → desired_replicas_of pool ≤ℤ desired_replicas_of (scaled pool r))
scale_found-IsAwake c q server pool r h = elim (Bool-cases (needs_patch c q pool)) [
  | inl t ↦ elim (Option-cases (server.patch (woken server.now (queued_target c q) pool))) [
    | inl e ↦
        subst
          (λ x.
            IsAwake c q (scaled pool x)
            × (autoscaling_off pool.meta ≡ false
                → desired_replicas_of pool ≤ℤ desired_replicas_of (scaled pool x)))
          (ok_injective (sym (patched_lem c q server pool t e) ∙ h))
          (
            woken-IsAwake c q server.now pool,
            λ o.
                rw (woken_desired server.now (queued_target c q) pool)
                  (woken-ge c q server pool t o),
          )
    | inr (x, e) ↦ absurd (cc (refused_lem c q server pool t e))
  ]
  | inr f ↦
      subst
        (λ x.
          IsAwake c q (scaled pool x)
          × (autoscaling_off pool.meta ≡ false
              → desired_replicas_of pool ≤ℤ desired_replicas_of (scaled pool x)))
        (ok_injective (sym (kept_lem c q server pool f) ∙ h))
        (kept-IsAwake c q server pool f, λ o. omega arith)
]
