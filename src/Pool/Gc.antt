-- ===== src/Pool/Gc.antt =====
-- The garbage collector of managed pools, pkg/gateway/managed_pool_gc.go: one pass of
-- reconcileManagedPoolGC. What the API server, the store and the clock say are arguments; times are
-- nanoseconds since the zero time. The pass returns its result and the calls that changed something.
pub mod Attempts
pub mod Pass
pub mod Turns
pub mod Ranking
pub mod Reasons
pub mod Safety
pub mod Promises
pub mod Order
pub mod Idle
use agent_env.Base.{
  inl, inr, ◌⊎◌, refl, ◌≡◌, ◌++◌, ℕ, zero, suc, ◌+◌, ◌-◌, ◌*◌, ◌%◌, ◌≤◌, ◌<◌, ◌≡◌, ◌≢◌, refl, sym,
  ap, ap₂, subst, ◌∙◌, Bool, true, false, not, ◌&&◌, ◌||◌, if◌then◌else◌, Option, none, some, List,
  [], ◌∷◌, ◌++◌, map, ◌==◌, get_or, select, inl, inr, ◌⊎◌, ◌↔◌, length, arith, Bool-cases,
  Option-cases, In, All, All-In, eqb, ltb, leb, is_some,
}
use agent_env.Base.Text.{Text, Text_eq, codes, is_empty, trim_space, to_lower, text_lt}
use agent_env.Base.Int.{ℤ, pos, negsuc, ltb_ℤ, eqb_ℤ, ◌-ℤ◌}
use agent_env.Base.Table.{Table, lookup_or}
use agent_env.Base.Sort.{sort}
use agent_env.Kube.{Key, Key_eq, key_eq, meta_key, WarmPool, Template, Claim}
use agent_env.Naming.{sandbox_template_name}
use agent_env.Pool.Snapshot.{pool_last_used_annotation}
use agent_env.Pool.Selector.{PolicyError, Result, ok, err}
use agent_env.Pool.Index.{PoolIndex, upsert_pool, delete_pool, delete_template, count_of}
use agent_env.Pool.Lifecycle.{
  Answer, found, missing, failed, word_at, managed_pool_annotation, is_managed_pool,
  pool_lifecycle_stopped, SessionBinding, allocated_pool, allocated_namespace,
  pool_has_active_bindings, any, StopServer, StopOutcome, stopped, stop_managed_pool_if_unused,
}

pub record ManagedPoolGcCandidate : Type 0 where
  pub pool : WarmPool
  pub last_used : ℤ

-- managedPoolLastUsedAt. `parse_time` is `time.Parse` for RFC 3339.
unfoldable pub managed_pool_last_used_at : (Text → Option ℤ) → WarmPool → ℤ → ℤ
managed_pool_last_used_at parse_time pool now =
    let value = trim_space (lookup_or [] pool_last_used_annotation pool.meta.annotations) in
    let created = if eqb pool.meta.created_at 0 then now else pos pool.meta.created_at in
    if is_empty value then created else get_or (parse_time value) created

-- The pool that a session in the store refers to.
unfoldable pub session_reference : Text → SessionBinding → Option Key
unfolding allocated_pool allocated_namespace
session_reference namespace s =
    let stated = allocated_namespace s in
    let of = if is_empty stated then namespace else stated in
    if s.closed || is_empty (trim_space (allocated_pool s))
    then none
    else if not (of == namespace)
    then none
    else some (record { namespace = of; name = allocated_pool s })

unfoldable pub claim_reference : Claim → Option Key
claim_reference c =
    if c.meta.deleting || is_empty (trim_space c.warm_pool_name)
    then none
    else some (record { namespace = c.meta.namespace; name = c.warm_pool_name })

-- `references[key] = struct{}{}`, for what refers to a pool; the set is read by membership alone.
unfoldable pub collect_references : {A : Type 0} → (A → Option Key) → List A → List Key → List Key
collect_references refers [] keys = keys
collect_references refers (x ∷ xs) keys =
    collect_references refers xs (elim (refers x) [ none ↦ keys | some k ↦ k ∷ keys ])

unfoldable pub in_use : Key → List Key → Bool
in_use k [] = false
in_use k (x ∷ xs) = x == k || in_use k xs

-- managedPoolReferences, of the sessions in the store and the claims that a List answers.
unfoldable pub managed_pool_references :
    Text → List SessionBinding → Result (List Claim) → Result (List Key)
unfolding session_reference claim_reference collect_references
managed_pool_references namespace sessions claims =
    let of_sessions = collect_references (session_reference namespace) sessions [] in
    elim claims [ err e ↦ err e | ok cs ↦ ok (collect_references claim_reference cs of_sessions) ]

-- `a.Sub(b)`, which stops at the ends of an int64.
unfoldable pub sub_time : ℤ → ℤ → ℤ
unfolding ◌-ℤ◌
sub_time a b =
    let d = a -ℤ b in
    if ltb_ℤ (pos 9223372036854775807) d
    then pos 9223372036854775807
    else if ltb_ℤ d (negsuc 9223372036854775807)
    then negsuc 9223372036854775807
    else d

unfoldable pub is_candidate : List Key → WarmPool → Bool
unfolding in_use is_managed_pool pool_lifecycle_stopped
is_candidate references pool =
    not (in_use (meta_key pool.meta) references)
    && not (not (is_managed_pool pool) || not (pool_lifecycle_stopped pool))

unfoldable pub candidate_of : (Text → Option ℤ) → ℤ → WarmPool → ManagedPoolGcCandidate
unfolding managed_pool_last_used_at
candidate_of parse_time now pool = record {
  pool = pool;
  last_used = managed_pool_last_used_at parse_time pool now;
}

unfoldable pub gc_candidates :
    (Text → Option ℤ) → ℤ → List Key → List WarmPool → List ManagedPoolGcCandidate
unfolding is_candidate candidate_of
gc_candidates parse_time now references pools =
    map (candidate_of parse_time now) (select (is_candidate references) pools)

-- The least recently used first, then the oldest, then by name.
unfoldable pub collected_before : ManagedPoolGcCandidate → ManagedPoolGcCandidate → Bool
collected_before a b =
    if eqb_ℤ a.last_used b.last_used
    then (if eqb a.pool.meta.created_at b.pool.meta.created_at
        then text_lt a.pool.meta.name b.pool.meta.name
        else ltb a.pool.meta.created_at b.pool.meta.created_at)
    else ltb_ℤ a.last_used b.last_used

-- What Delete answers: nothing, NotFound, or another error.
pub data Deletion : Type 0 where
  deleted already_gone : Deletion
  refused : PolicyError → Deletion

pub Deletion-cases :
    (d : Deletion) → ((d ≡ deleted) ⊎ (d ≡ already_gone)) ⊎ ((e : PolicyError) × (d ≡ refused e))
Deletion-cases deleted = inl (inl refl)
Deletion-cases already_gone = inl (inr refl)
Deletion-cases (refused e) = inr (e, refl)

-- What the API server and the store say while one candidate is tried.
pub record GcAttempt : Type 0 where
  pub get : Answer WarmPool
  pub sessions : List SessionBinding
  pub claims : Result (List Claim)
  pub delete : Deletion
  pub get_template : Answer Template
  pub delete_template_answer : Deletion

-- The gateway's index and the Delete calls that went through.
pub record GcState : Type 0 where
  pub index : Option PoolIndex
  pub deleted_pools : List Key
  pub deleted_templates : List Key

unfoldable pub on_index : (PoolIndex → PoolIndex) → Option PoolIndex → Option PoolIndex
on_index f none = none
on_index f (some idx) = some (f idx)

-- deletePoolTemplateIfOwned.
unfoldable pub delete_pool_template_if_owned :
    (Text → Text) → GcAttempt → Text → Text → Text → GcState → Option PolicyError × GcState
unfolding word_at sandbox_template_name on_index
delete_pool_template_if_owned hash_ten a template_name pool_name namespace s =
    elim (a.get_template) [
      | missing ↦ (none, s)
      | failed e ↦ (some e, s)
      | found template ↦
          let managed = word_at managed_pool_annotation template.meta == codes "true" in
          let default_name = template_name == sandbox_template_name hash_ten pool_name in
          let key : Key = record { namespace = namespace; name = template_name } in
          let gone : Option PolicyError × GcState = (
            none,
            record s {
              index = on_index (delete_template template) s.index;
              deleted_templates = s.deleted_templates ++ key ∷ [];
            },
          ) in
          let removed : Option PolicyError × GcState = elim (a.delete_template_answer) [
            | refused e ↦ (some e, s)
            | deleted ↦ gone
            | already_gone ↦ gone
          ] in
          if not managed && not default_name then (none, s) else removed
    ]

-- After the Delete of the pool went through: the index, and the template.
unfoldable pub after_delete :
    (Text → Text) → GcAttempt → Key → WarmPool → GcState → (Bool × Option PolicyError) × GcState
unfolding delete_pool_template_if_owned on_index
after_delete hash_ten a key pool s =
    let gone : GcState = record s {
      index = on_index (delete_pool pool) s.index;
      deleted_pools = s.deleted_pools ++ key ∷ [];
    } in
    let owned =
      delete_pool_template_if_owned hash_ten a pool.template_name key.name key.namespace gone in
    if is_empty pool.template_name then ((true, none), gone) else ((true, owned.0), owned.1)

unfoldable pub delete_found :
    (Text → Text) → GcAttempt → Key → WarmPool → GcState → (Bool × Option PolicyError) × GcState
unfolding is_managed_pool pool_lifecycle_stopped pool_has_active_bindings after_delete
delete_found hash_ten a key pool s =
    let gone = after_delete hash_ten a key pool s in
    let removed : (Bool × Option PolicyError) × GcState = elim (a.delete) [
      | refused e ↦ ((false, some e), s)
      | deleted ↦ gone
      | already_gone ↦ gone
    ] in
    let unbound : (Bool × Option PolicyError) × GcState =
      elim (pool_has_active_bindings key.name key.namespace a.sessions a.claims) [
        | err e ↦ ((false, some e), s)
        | ok bound ↦ if bound then ((false, none), s) else removed
      ] in
    if not (is_managed_pool pool) || not (pool_lifecycle_stopped pool)
    then ((false, none), s)
    else unbound

-- deleteManagedPoolGCCandidate.
unfoldable pub delete_managed_pool_gc_candidate :
    (Text → Text) → GcAttempt → Key → GcState → (Bool × Option PolicyError) × GcState
unfolding delete_found
delete_managed_pool_gc_candidate hash_ten a key s = elim (a.get) [
  | missing ↦ ((false, none), s)
  | failed e ↦ ((false, some e), s)
  | found pool ↦ delete_found hash_ten a key pool s
]
