-- ===== src/Pool/Lifecycle/Stopping.antt =====
-- Stopping a managed pool.
use agent_env.Base.{
  ◌==◌, subst, Bool-cases, Option-cases, ==_refl, ap, ◌∙◌, refl, Option, none, ◌≡◌, true, [], ◌==◌,
  false, some, inl, inr, ◌⊎◌,
}
use agent_env.Base.Text.{Text, Text_eq, codes, is_empty, trim_space, to_lower, text_eq}
use agent_env.Base.Int.{pos}
use agent_env.Base.Table.{lookup_or, insert, lookup-insert, Table}
use agent_env.Kube.{WarmPool}
use agent_env.Pool.Snapshot.{
  desired_replicas_of, pool_state_annotation, pool_autoscale_annotation, pool_last_used_annotation,
  pool_state_stopped,
}
use agent_env.Pool.Selector.{namespace_not_allowed, PolicyError, Result, ok, err}
use agent_env.Pool.Planner.{apply_pool_state_metadata, apply_pool_last_used_metadata}
use agent_env.Pool.Lifecycle.{
  Answer, found, missing, failed, word_at, is_managed_pool, pool_lifecycle_stopped,
  pool_has_active_bindings, stopped_pool, StopServer, mark_pool_stopped, StopOutcome, left, stopped,
  stop_found, resolve_namespace, stop_managed_pool_if_unused, Result-cases,
}

inserted : (k v : Text) (m : Table Text Text) → lookup_or [] k (insert k v m) ≡ v
inserted k v m = rw (lookup-insert k k v m) (rw (==_refl k) refl)

not_inserted :
    (j k v : Text) (m : Table Text Text)
    → (j == k) ≡ false
    → lookup_or [] k (insert j v m) ≡ lookup_or [] k m
not_inserted j k v m f = rw (lookup-insert j k v m) (rw f refl)

abbrev after_stop : Text → WarmPool → Table Text Text
after_stop now pool = insert pool_autoscale_annotation (codes "false") (
    insert pool_last_used_annotation now
      (insert pool_state_annotation pool_state_stopped pool.meta.annotations))

stopped_annotations :
    (now : Text) (pool : WarmPool) → (stopped_pool now pool).meta.annotations ≡ after_stop now pool
unfolding stopped_pool apply_pool_state_metadata apply_pool_last_used_metadata trim_space
stopped_annotations now pool = refl

state_there :
    (now : Text) (pool : WarmPool)
    → lookup_or [] pool_state_annotation (after_stop now pool) ≡ pool_state_stopped
unfolding text_eq
state_there now pool =
    not_inserted pool_autoscale_annotation pool_state_annotation (codes "false")
      (insert pool_last_used_annotation now
        (insert pool_state_annotation pool_state_stopped pool.meta.annotations))
      refl
    ∙ not_inserted pool_last_used_annotation pool_state_annotation now
        (insert pool_state_annotation pool_state_stopped pool.meta.annotations) refl
    ∙ inserted pool_state_annotation pool_state_stopped pool.meta.annotations

state_word :
    (now : Text) (pool : WarmPool)
    → word_at pool_state_annotation (stopped_pool now pool).meta ≡ pool_state_stopped
unfolding word_at trim_space to_lower
state_word now pool =
    ap (λ a. to_lower (trim_space (lookup_or [] pool_state_annotation a)))
      (stopped_annotations now pool)
    ∙ ap (λ t. to_lower (trim_space t)) (state_there now pool)

autoscale_word :
    (now : Text) (pool : WarmPool)
    → word_at pool_autoscale_annotation (stopped_pool now pool).meta ≡ codes "false"
unfolding word_at trim_space to_lower
autoscale_word now pool =
    ap (λ a. to_lower (trim_space (lookup_or [] pool_autoscale_annotation a)))
      (stopped_annotations now pool)
    ∙ ap (λ t. to_lower (trim_space t))
        (inserted pool_autoscale_annotation (codes "false") (
          insert pool_last_used_annotation now
            (insert pool_state_annotation pool_state_stopped pool.meta.annotations)))

no_replicas : (now : Text) (pool : WarmPool) → desired_replicas_of (stopped_pool now pool) ≡ pos 0
unfolding desired_replicas_of stopped_pool
no_replicas now pool = refl

-- A pool that is patched for a stop reads as stopped.
pub stopped_pool-IsStopped :
    (now : Text) (pool : WarmPool) → pool_lifecycle_stopped (stopped_pool now pool) ≡ true
unfolding pool_lifecycle_stopped
stopped_pool-IsStopped now pool =
    rw (state_word now pool, autoscale_word now pool)
      (rw (no_replicas now pool, ==_refl pool_state_stopped, ==_refl (codes "false")) refl)

-- Why a pool may be stopped: the server has it, it is managed and not stopped yet, and neither a
-- session nor a claim is bound to it.
pub record IsStoppable (name namespace : Text) (server : StopServer) : Type 0 where
  pub pool : WarmPool
  pub there : server.get ≡ found pool
  pub managed : is_managed_pool pool ≡ true
  pub running : pool_lifecycle_stopped pool ≡ false
  pub unbound : pool_has_active_bindings name namespace server.sessions server.claims ≡ ok false

-- A stop that did something leaves a stopped pool, or none where the pool has gone meanwhile.
abbrev pub IsLeftStopped : Option WarmPool → Type 0
IsLeftStopped none = Unit {0}
IsLeftStopped (some pool) = pool_lifecycle_stopped pool ≡ true

abbrev IsStop : Text → Text → StopServer → Result StopOutcome → Type 0
IsStop name namespace server (err e) = Unit {0}
IsStop name namespace server (ok left) = Unit {0}
IsStop name namespace server (ok (stopped p)) = IsStoppable name namespace server × IsLeftStopped p

marked :
    (name namespace : Text) (server : StopServer) (patch : WarmPool → Option PolicyError)
    (again : Answer WarmPool)
    → IsStoppable name namespace server
    → IsStop name namespace server
        (elim (elim again as (λ x. Result (Option WarmPool)) [
          | missing ↦ ok none
          | failed e ↦ err e
          | found pool ↦ elim (patch (stopped_pool server.now pool)) [
            | some e ↦ err e
            | none ↦ ok (some (stopped_pool server.now pool))
          ]
        ])
          as (λ x. Result StopOutcome) [ err e ↦ err e | ok p ↦ ok (stopped p) ])
marked name namespace server patch missing h = (h, tt)
marked name namespace server patch (failed e) h = tt
marked name namespace server patch (found pool) h =
    elim (Option-cases (patch (stopped_pool server.now pool))) [
      | inl e ↦ rw e (h, stopped_pool-IsStopped server.now pool)
      | inr (x, e) ↦ rw e tt
    ]

stop_found-IsStop :
    (name namespace : Text) (server : StopServer) (pool : WarmPool)
    → server.get ≡ found pool
    → IsStop name namespace server (stop_found name namespace server pool)
unfolding stop_found mark_pool_stopped
stop_found-IsStop name namespace server pool e = elim (Bool-cases (is_managed_pool pool)) [
  | inr f ↦ rw f tt
  | inl t ↦
      elim (Result-cases (pool_has_active_bindings name namespace server.sessions server.claims)) [
        | inl (x, b) ↦ rw (t, b) tt
        | inr (true, b) ↦ rw (t, b) tt
        | inr (false, b) ↦ elim (Bool-cases (pool_lifecycle_stopped pool)) [
          | inl s ↦ rw (t, b, s) tt
          | inr r ↦
              rw (t, b, r)
                (marked name namespace server server.patch server.get_again
                  (record { pool = pool; there = e; managed = t; running = r; unbound = b }))
        ]
      ]
]

answered :
    (name namespace : Text) (server : StopServer) (answer : Answer WarmPool)
    → server.get ≡ answer
    → IsStop name namespace server (elim answer as (λ x. Result StopOutcome) [
      | missing ↦ ok left
      | failed e ↦ err e
      | found pool ↦ stop_found name namespace server pool
    ])
answered name namespace server missing e = tt
answered name namespace server (failed x) e = tt
answered name namespace server (found pool) e = stop_found-IsStop name namespace server pool e

resolve_namespace-IsAllowed :
    (allowed requested : Text)
    → (resolve_namespace allowed requested ≡ ok allowed)
      ⊎ ((e : PolicyError) × (resolve_namespace allowed requested ≡ err e))
unfolding resolve_namespace
resolve_namespace-IsAllowed allowed requested =
    elim (Bool-cases (is_empty (trim_space requested))) [
      | inl t ↦ inl (rw t refl)
      | inr f ↦ elim (Bool-cases (trim_space requested == allowed)) [
        | inl t ↦ inl (rw (f, t) (ap ok ((Text_eq.equals_iff (trim_space requested) allowed).0 t)))
        | inr g ↦ inr (namespace_not_allowed, rw (f, g) refl)
      ]
    ]

stop-IsStop :
    (allowed name requested : Text) (server : StopServer)
    → IsStop name allowed server (stop_managed_pool_if_unused allowed name requested server)
unfolding stop_managed_pool_if_unused
stop-IsStop allowed name requested server = elim (Bool-cases (is_empty (trim_space name))) [
  | inl t ↦ rw t tt
  | inr f ↦ elim (resolve_namespace-IsAllowed allowed requested) [
    | inr (x, e) ↦ rw (f, e) tt
    | inl e ↦ rw (f, e) (answered name allowed server server.get refl)
  ]
]

-- Whatever the store and the API server answer, a pool is stopped only if it is managed, not stopped
-- yet and without a session or a claim, and then its namespace is the gateway's own; after the stop
-- it reads as stopped, or has gone meanwhile.
pub stop_managed_pool_if_unused-IsStoppable :
    (allowed name requested : Text) (server : StopServer) (patched : Option WarmPool)
    → stop_managed_pool_if_unused allowed name requested server ≡ ok (stopped patched)
    → IsStoppable name allowed server × IsLeftStopped patched
stop_managed_pool_if_unused-IsStoppable allowed name requested server patched h =
    subst (IsStop name allowed server) h (stop-IsStop allowed name requested server)
