-- ===== src/Pool/Autoscaler/Pass.antt =====
-- One pass of the autoscaler over the listed pools.
use agent_env.Base.{
  ◌≡◌, refl, sym, ap, ap₂, subst, ◌∙◌, true, false, Option, none, some, List, [], ◌∷◌, inl, inr,
  arith, Bool-cases, Option-cases,
}
use agent_env.Kube.{Key, Key_eq, meta_key, WarmPool}
use agent_env.Pool.Snapshot.{desired_replicas_of}
use agent_env.Pool.Selector.{PolicyError}
use agent_env.Pool.Index.{count_of}
use agent_env.Pool.Autoscaler.{
  AutoscalerConfig, pool_autoscale_target, pool_autoscaling_disabled, with_replicas,
  reconcile_pools, reconcile_pool,
}
use agent_env.Base.Int.{ℤ, eqb_ℤ_iff}
use agent_env.Base.Table.{Table}

-- A pool is left as it was if autoscaling is off for it, and otherwise has its target.
abbrev pub IsSized : AutoscalerConfig → Table Key ℤ → WarmPool → WarmPool → Type 0
IsSized c queued before after =
    (pool_autoscaling_disabled before ≡ true → after ≡ before)
    × (pool_autoscaling_disabled before ≡ false
        → (desired_replicas_of after
            ≡ pool_autoscale_target c (count_of (meta_key before.meta) queued))
          × (after.meta ≡ before.meta)
          × (after.template_name ≡ before.template_name)
          × (after.ready_replicas ≡ before.ready_replicas))

-- Pool by pool.
abbrev pub AllSized : AutoscalerConfig → Table Key ℤ → List WarmPool → List WarmPool → Type 0
AllSized c queued [] [] = Unit
AllSized c queued [] (q ∷ qs) = ⊥
AllSized c queued (p ∷ ps) [] = ⊥
AllSized c queued (p ∷ ps) (q ∷ qs) = IsSized c queued p q × AllSized c queued ps qs

module _ (c : AutoscalerConfig) (queued : Table Key ℤ)
    (answers : WarmPool → Option PolicyError) where
  reconcile_pool-IsSized :
      (p : WarmPool)
      → (reconcile_pool c queued answers p).1 ≡ none
      → IsSized c queued p (reconcile_pool c queued answers p).0
  unfolding reconcile_pool with_replicas desired_replicas_of
  reconcile_pool-IsSized p h = ground (
    arith,
    Option-cases
        (answers (with_replicas (pool_autoscale_target c (count_of (meta_key p.meta) queued)) p)),
    eqb_ℤ_iff (pool_autoscale_target c (count_of (meta_key p.meta) queued)) (desired_replicas_of p),
  )

  step_done :
      (p : WarmPool) (ps : List WarmPool)
      → (reconcile_pool c queued answers p).1 ≡ none
      → reconcile_pools c queued answers (p ∷ ps) ≡ (
        (reconcile_pool c queued answers p).0 ∷ (reconcile_pools c queued answers ps).0,
        (reconcile_pools c queued answers ps).1,
      )
  unfolding reconcile_pools
  step_done p ps e = rw (e, reconcile_pools) refl

  step_failed :
      (p : WarmPool) (ps : List WarmPool) {x : PolicyError}
      → (reconcile_pool c queued answers p).1 ≡ some x
      → reconcile_pools c queued answers (p ∷ ps) ≡ (p ∷ ps, some x)
  unfolding reconcile_pools
  step_failed p ps e = rw (e, reconcile_pools) refl

  -- A pass that meets no error leaves every enabled pool at its target and every other as it was.
  pub reconcile_pools-AllSized :
      (pools : List WarmPool)
      → (reconcile_pools c queued answers pools).1 ≡ none
      → AllSized c queued pools (reconcile_pools c queued answers pools).0
  unfolding reconcile_pools
  reconcile_pools-AllSized [] h = tt
  reconcile_pools-AllSized (p ∷ ps) h = elim (Option-cases (reconcile_pool c queued answers p).1) [
    | inl e ↦
        subst (λ r. AllSized c queued (p ∷ ps) r.0) (sym (step_done p ps e))
          (
            reconcile_pool-IsSized p e,
            reconcile_pools-AllSized ps (ground (arith, step_done p ps e)),
          )
    | inr (x, e) ↦ absurd (ground (arith, step_failed p ps e))
  ]

-- A pool that is off, or at its target, is not patched.
not_patched :
    (c : AutoscalerConfig) (queued : Table Key ℤ) (answers : WarmPool → Option PolicyError)
    (p : WarmPool)
    → (pool_autoscaling_disabled p ≡ false
        → desired_replicas_of p ≡ pool_autoscale_target c (count_of (meta_key p.meta) queued))
    → reconcile_pool c queued answers p ≡ (p, none)
unfolding reconcile_pool
not_patched c queued answers p h = elim (Bool-cases (pool_autoscaling_disabled p)) [
  | inl t ↦ rw (t, reconcile_pool) refl
  | inr f ↦ rw (f, reconcile_pool) (rw (← h f) (rw ((eqb_ℤ_iff _ _).1 refl) refl))
]

-- A sized pool that is on has its target, by its own key.
at_target :
    (c : AutoscalerConfig) (queued : Table Key ℤ) (p q : WarmPool)
    → IsSized c queued p q
    → pool_autoscaling_disabled q ≡ false
    → desired_replicas_of q ≡ pool_autoscale_target c (count_of (meta_key q.meta) queued)
at_target c queued p q h f = elim (Bool-cases (pool_autoscaling_disabled p)) [
  | inl t ↦ absurd (ground (arith, t, f, ap pool_autoscaling_disabled (h.0 t)))
  | inr g ↦
      (h.1 g).0 ∙ ap (λ m. pool_autoscale_target c (count_of (meta_key m) queued)) (sym (h.1 g).1)
]

abbrev joined :
    WarmPool × Option PolicyError
    → List WarmPool × Option PolicyError
    → List WarmPool × Option PolicyError
joined r s = (r.0 ∷ s.0, s.1)

-- Over pools that a pass has sized, as reconcile_pools-AllSized says, the next pass patches nothing
-- and meets no error, whatever the API server would answer, while the queue is the same.
pub reconcile_pools_settled :
    (c : AutoscalerConfig) (queued : Table Key ℤ) (later : WarmPool → Option PolicyError)
    (before after : List WarmPool)
    → AllSized c queued before after
    → reconcile_pools c queued later after ≡ (after, none)
unfolding reconcile_pools
reconcile_pools_settled c queued later [] [] h = refl
reconcile_pools_settled c queued later [] (q ∷ qs) h = absurd h
reconcile_pools_settled c queued later (p ∷ ps) [] h = absurd h
reconcile_pools_settled c queued later (p ∷ ps) (q ∷ qs) h =
    let quiet : reconcile_pool c queued later q ≡ (q, none) =
      not_patched c queued later q (at_target c queued p q h.0) in
    let rest = reconcile_pools_settled c queued later ps qs h.1 in
    step_done c queued later q qs (ap (λ r. r.1) quiet) ∙ ap₂ joined quiet rest
