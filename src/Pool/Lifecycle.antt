-- ===== src/Pool/Lifecycle.antt =====
-- The lifecycle of managed pools: isManagedPool, poolLifecycleStopped, poolHasActiveBindings and
-- stopManagedPoolIfUnused in pkg/gateway/experiment.go, patchPoolLifecycle in
-- pkg/gateway/pool_management.go, and runtimeAllocation in pkg/gateway/gateway.go. What the API
-- server answers is an argument. `strings.EqualFold` with "true" is lower case here: no rune outside
-- ASCII folds to one of its letters.
pub mod Bindings
pub mod Stopping
use agent_env.Base.{
  ℕ, zero, suc, ◌+◌, ◌-◌, ◌*◌, ◌%◌, ◌≤◌, ◌<◌, ◌≡◌, ◌≢◌, refl, sym, ap, ap₂, subst, ◌∙◌, Bool, true,
  false, not, ◌&&◌, ◌||◌, if◌then◌else◌, Option, none, some, List, [], ◌∷◌, ◌++◌, map, ◌==◌, get_or,
  select, inl, inr, ◌⊎◌, ◌↔◌, length, arith, Bool-cases, Option-cases, In, All, All-In, eqb, ltb,
  leb, is_some,
}
use agent_env.Base.Text.{Text, Text_eq, codes, is_empty, trim_space, to_lower}
use agent_env.Base.Int.{ℤ, ℤ_eq, pos}
use agent_env.Base.Table.{Table, lookup_or, insert}
use agent_env.Kube.{Key, ObjectMeta, WarmPool, Claim}
use agent_env.Pool.Snapshot.{
  desired_replicas_of, pool_state_annotation, pool_autoscale_annotation, pool_state_stopped,
}
use agent_env.Pool.Selector.{PolicyError, Result, ok, err, namespace_not_allowed}
use agent_env.Pool.Planner.{apply_pool_state_metadata, apply_pool_last_used_metadata}

abbrev pub managed_pool_annotation : Text
managed_pool_annotation = codes "arl.infra.io/managed-pool"

-- What Get answers: an object, NotFound, or another error.
pub data Answer (A : Type 0) : Type 0 where
  found : A → Answer A
  missing : Answer A
  failed : PolicyError → Answer A

-- A word of an annotation, as the lifecycle compares it.
unfoldable pub word_at : Text → ObjectMeta → Text
word_at key meta = to_lower (trim_space (lookup_or [] key meta.annotations))

unfoldable pub is_managed_pool : WarmPool → Bool
unfolding word_at
is_managed_pool pool = word_at managed_pool_annotation pool.meta == codes "true"

unfoldable pub pool_lifecycle_stopped : WarmPool → Bool
unfolding desired_replicas_of word_at
pool_lifecycle_stopped pool =
    desired_replicas_of pool == pos 0
    && word_at pool_state_annotation pool.meta == pool_state_stopped
    && word_at pool_autoscale_annotation pool.meta == codes "false"

-- The part of a session that says which pool it is bound to: its runtime, and its info besides.
pub record SessionBinding : Type 0 where
  pub closed : Bool
  pub runtime_pool_ref : Text
  pub runtime_namespace : Text
  pub info_pool_ref : Text
  pub info_namespace : Text

-- The PoolRef and the Namespace of session.runtimeAllocation.
unfoldable pub allocated_pool : SessionBinding → Text
allocated_pool s = if is_empty s.runtime_pool_ref then s.info_pool_ref else s.runtime_pool_ref

unfoldable pub allocated_namespace : SessionBinding → Text
allocated_namespace s =
    if is_empty s.runtime_namespace then s.info_namespace else s.runtime_namespace

unfoldable pub binds_session : Text → Text → SessionBinding → Bool
unfolding allocated_pool allocated_namespace
binds_session pool_name namespace s =
    not (s.closed || not (allocated_pool s == pool_name))
    && not (not (is_empty (allocated_namespace s)) && not (allocated_namespace s == namespace))

unfoldable pub any : {A : Type 0} → (A → Bool) → List A → Bool
any p [] = false
any p (x ∷ xs) = p x || any p xs

unfoldable pub binds_claim : Text → Claim → Bool
binds_claim pool_name c = not (c.meta.deleting || not (c.warm_pool_name == pool_name))

-- poolHasActiveBindings, of the sessions in the store and the claims that a List answers.
unfoldable pub pool_has_active_bindings :
    Text → Text → List SessionBinding → Result (List Claim) → Result Bool
unfolding binds_session binds_claim any
pool_has_active_bindings pool_name namespace sessions claims =
    if any (binds_session pool_name namespace) sessions
    then ok true
    else elim claims [ err e ↦ err e | ok cs ↦ ok (any (binds_claim pool_name) cs) ]

-- The pool that patchPoolLifecycle patches in for a stop; `now` is the time's RFC 3339 text.
unfoldable pub stopped_pool : Text → WarmPool → WarmPool
unfolding apply_pool_state_metadata apply_pool_last_used_metadata
stopped_pool now pool =
    let meta =
      apply_pool_last_used_metadata now (apply_pool_state_metadata pool_state_stopped pool.meta) in
    record pool {
      replicas = some (pos 0);
      meta = record meta {
        annotations = insert pool_autoscale_annotation (codes "false") meta.annotations;
      };
    }

-- What the API server and the store say during one stop: each read, and the answer to the patch.
pub record StopServer : Type 0 where
  pub now : Text
  pub get : Answer WarmPool
  pub sessions : List SessionBinding
  pub claims : Result (List Claim)
  pub get_again : Answer WarmPool
  pub patch : WarmPool → Option PolicyError

-- markPoolStopped: the pool that it patched, if there is one.
unfoldable pub mark_pool_stopped : StopServer → Result (Option WarmPool)
unfolding stopped_pool
mark_pool_stopped server = elim (server.get_again) [
  | missing ↦ ok none
  | failed e ↦ err e
  | found pool ↦ elim (server.patch (stopped_pool server.now pool)) [
    | some e ↦ err e
    | none ↦ ok (some (stopped_pool server.now pool))
  ]
]

-- What a stop did: nothing, or a stop, with the pool that was patched.
pub data StopOutcome : Type 0 where
  left : StopOutcome
  stopped : Option WarmPool → StopOutcome

unfoldable pub stop_found : Text → Text → StopServer → WarmPool → Result StopOutcome
unfolding is_managed_pool pool_has_active_bindings pool_lifecycle_stopped mark_pool_stopped
stop_found pool_name namespace server pool =
    let marked : Result StopOutcome = elim (mark_pool_stopped server) [
      | err e ↦ err e
      | ok p ↦ ok (stopped p)
    ] in
    let unused : Result StopOutcome = if pool_lifecycle_stopped pool then ok left else marked in
    let bound : Result StopOutcome =
      elim (pool_has_active_bindings pool_name namespace server.sessions server.claims) [
        | err e ↦ err e
        | ok in_use ↦ if in_use then ok left else unused
      ] in
    if not (is_managed_pool pool) then ok left else bound

-- Gateway.resolveNamespace; `allowed` is the namespace that the gateway is scoped to.
unfoldable pub resolve_namespace : Text → Text → Result Text
resolve_namespace allowed requested =
    let namespace = trim_space requested in
    if is_empty namespace
    then ok allowed
    else if not (namespace == allowed)
    then err namespace_not_allowed
    else ok namespace

unfoldable pub stop_managed_pool_if_unused : Text → Text → Text → StopServer → Result StopOutcome
unfolding stop_found resolve_namespace
stop_managed_pool_if_unused allowed pool_name requested server =
    let scoped : Result StopOutcome = elim (resolve_namespace allowed requested) [
      | err e ↦ err e
      | ok namespace ↦ elim (server.get) [
        | missing ↦ ok left
        | failed e ↦ err e
        | found pool ↦ stop_found pool_name namespace server pool
      ]
    ] in
    if is_empty (trim_space pool_name) then ok left else scoped

pub Answer-cases :
    {A : Type 0} (r : Answer A)
    → (r ≡ missing) ⊎ (((e : PolicyError) × (r ≡ failed e)) ⊎ ((x : A) × (r ≡ found x)))
Answer-cases missing = inl refl
Answer-cases (failed e) = inr (inl (e, refl))
Answer-cases (found x) = inr (inr (x, refl))

pub Result-cases :
    {A : Type 0} (r : Result A) → ((e : PolicyError) × (r ≡ err e)) ⊎ ((x : A) × (r ≡ ok x))
Result-cases (err e) = inl (e, refl)
Result-cases (ok x) = inr (x, refl)
