-- ===== src/Pool/Listing.antt =====
-- Pools and claims as they are listed from the API server: snapshotPools, snapshotPinnedPool and
-- their claim counts in pkg/gateway/pool_policy.go, and refreshPoolIndexFromReader in
-- pkg/gateway/pool_index.go. What a List or a Get answers is an argument, a Result.
pub mod Refresh
use agent_env.Base.{
  ℕ, zero, suc, ◌+◌, ◌-◌, ◌*◌, ◌%◌, ◌≤◌, ◌<◌, ◌≡◌, ◌≢◌, refl, sym, ap, ap₂, subst, ◌∙◌, Bool, true,
  false, not, ◌&&◌, ◌||◌, if◌then◌else◌, Option, none, some, List, [], ◌∷◌, ◌++◌, map, ◌==◌, get_or,
  select, inl, inr, ◌⊎◌, ◌↔◌, length, arith, Bool-cases, Option-cases, In, All, All-In, eqb, ltb,
  leb, is_some,
}
use agent_env.Base.Text.{Text, Text_eq, codes, is_empty}
use agent_env.Base.Int.{ℤ, pos, inc_int32}
use agent_env.Base.Table.{Table, lookup, insert}
use agent_env.Kube.{Key, Key_eq, meta_key, WarmPool, Template, Claim}
use agent_env.Pool.Snapshot.{PoolSnapshot, pool_snapshot_from_objects}
use agent_env.Pool.Selector.{Result, ok, err, normalized, ResourceIntent}
use agent_env.Pool.Index.{
  PoolIndex, count_of, count_up, replace, indexed_pool_from_object, indexed_template_from_object,
}
use agent_env.Pool.Index.Views.{snapshot_pool, snapshot_pools_for_intent}

-- The pool that a claim counts for, if the loops over claims do not skip it.
unfoldable pub live_pool : Claim → Option Key
live_pool c =
    if c.meta.deleting || is_empty c.warm_pool_name
    then none
    else some (record { namespace = c.meta.namespace; name = c.warm_pool_name })

unfoldable pub count_claim : Claim → Table Key ℤ → Table Key ℤ
unfolding live_pool count_up
count_claim c counts = elim (live_pool c) [ none ↦ counts | some p ↦ count_up p counts ]

unfoldable pub count_claims : List Claim → Table Key ℤ → Table Key ℤ
unfolding count_claim
count_claims [] counts = counts
count_claims (c ∷ cs) counts = count_claims cs (count_claim c counts)

-- claimCountsByPool, of the claims that are listed.
unfoldable pub claim_counts_by_pool : Result (List Claim) → Result (Table Key ℤ)
unfolding count_claims
claim_counts_by_pool (err e) = err e
claim_counts_by_pool (ok claims) = ok (count_claims claims [])

-- The loop of claimCountForPool over the claims that carry the pool's label.
unfoldable pub count_for_pool : Text → List Claim → ℤ → ℤ
unfolding inc_int32
count_for_pool name [] n = n
count_for_pool name (c ∷ cs) n =
    count_for_pool name cs
      (if c.meta.deleting || not (c.warm_pool_name == name) then n else inc_int32 n)

unfoldable pub claim_count_for_pool : Text → Result (List Claim) → Result ℤ
unfolding count_for_pool
claim_count_for_pool name (err e) = err e
claim_count_for_pool name (ok claims) = ok (count_for_pool name claims (pos 0))

unfoldable pub templates_by_name : List Template → Table Key Template → Table Key Template
unfolding insert
templates_by_name [] m = m
templates_by_name (t ∷ ts) m = templates_by_name ts (insert (meta_key t.meta) t m)

unfoldable pub snapshots_of : Table Key Template → Table Key ℤ → List WarmPool → List PoolSnapshot
unfolding lookup count_of pool_snapshot_from_objects
snapshots_of templates counts [] = []
snapshots_of templates counts (p ∷ ps) =
    pool_snapshot_from_objects p
      (lookup (record { namespace = p.meta.namespace; name = p.template_name }) templates)
      (count_of (meta_key p.meta) counts)
    ∷ snapshots_of templates counts ps

-- snapshotPools, of the three lists in the order in which it asks for them.
unfoldable pub listed_snapshots :
    Result (List WarmPool)
    → Result (List Claim)
    → Result (List Template)
    → Result (List PoolSnapshot)
unfolding claim_counts_by_pool templates_by_name snapshots_of
listed_snapshots (err e) claims templates = err e
listed_snapshots (ok pools) (err e) templates = err e
listed_snapshots (ok pools) (ok claims) (err e) = err e
listed_snapshots (ok pools) (ok claims) (ok templates) =
    ok (snapshots_of (templates_by_name templates []) (count_claims claims []) pools)

-- snapshotPinnedPool, of the pool and the template that Get answers and the claims that are listed.
unfoldable pub snapshot_pinned_pool :
    Result WarmPool → Result Template → Result (List Claim) → Result (List PoolSnapshot)
unfolding claim_count_for_pool pool_snapshot_from_objects
snapshot_pinned_pool (err e) template claims = err e
snapshot_pinned_pool (ok pool) (err e) claims = err e
snapshot_pinned_pool (ok pool) (ok template) (err e) = err e
snapshot_pinned_pool (ok pool) (ok template) (ok claims) = ok (
    pool_snapshot_from_objects pool (some template) (count_for_pool pool.meta.name claims (pos 0))
    ∷ [])

-- One turn of the loop of refreshPoolIndexFromReader over the claims, and the loop.
unfoldable pub add_claim : Claim → Table Key Key → Table Key Key
unfolding live_pool insert
add_claim c m = elim (live_pool c) [ none ↦ m | some p ↦ insert (meta_key c.meta) p m ]

unfoldable pub claims_by_pool : List Claim → Table Key Key → Table Key Key
unfolding add_claim
claims_by_pool [] m = m
claims_by_pool (c ∷ cs) m = claims_by_pool cs (add_claim c m)

-- refreshPoolIndexFromReader, of the lists that its reader answers.
unfoldable pub refresh_pool_index :
    List WarmPool → List Template → List Claim → PoolIndex → PoolIndex
unfolding replace claims_by_pool
refresh_pool_index pools templates claims idx =
    replace (map indexed_pool_from_object pools) (map indexed_template_from_object templates)
      (claims_by_pool claims []) idx

-- The pools that a direct listing finds: what the API server would answer to each question.
pub record Listings : Type 0 where
  pub pools : Result (List WarmPool)
  pub claims : Result (List Claim)
  pub templates : Result (List Template)
  pub pinned : Result WarmPool
  pub pinned_template : Result Template
  pub pinned_claims : Result (List Claim)

-- The direct listing at the end of snapshotPoolsForIntent.
unfoldable pub listed_for_intent : ResourceIntent → Listings → Result (List PoolSnapshot)
unfolding listed_snapshots snapshot_pinned_pool
listed_for_intent intent l =
    if not (is_empty intent.pinned_pool_name)
    then snapshot_pinned_pool l.pinned l.pinned_template l.pinned_claims
    else listed_snapshots l.pools l.claims l.templates

-- The read model is used if it is synced, and for a pinned pool if it has that pool.
unfoldable pub from_read_model : ResourceIntent → PoolIndex → Option (List PoolSnapshot)
unfolding snapshot_pool snapshot_pools_for_intent normalized
from_read_model intent idx =
    let key : Key = record {
      namespace = (normalized intent.scope).namespace;
      name = intent.pinned_pool_name;
    } in
    if not idx.synced
    then none
    else if is_empty intent.pinned_pool_name
    then some (snapshot_pools_for_intent intent idx)
    else elim (snapshot_pool key idx) [ none ↦ none | some s ↦ some (s ∷ []) ]

-- Gateway.snapshotPoolsForIntent; `none` is a gateway without an index.
unfoldable pub gateway_snapshots :
    ResourceIntent → Option PoolIndex → Listings → Result (List PoolSnapshot)
unfolding from_read_model listed_for_intent
gateway_snapshots intent none l = listed_for_intent intent l
gateway_snapshots intent (some idx) l = elim (from_read_model intent idx) [
  | none ↦ listed_for_intent intent l
  | some found ↦ ok found
]
