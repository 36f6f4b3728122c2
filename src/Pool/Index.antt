-- ===== src/Pool/Index.antt =====
-- The pool index of pkg/gateway/pool_index.go: the gateway's view of pools, templates and claims,
-- kept by informer events. The mutex makes each method one step; a nil object is ignored.
pub mod Counts
pub mod Exact
pub mod Events
pub mod Deletion
pub mod Views
use agent_env.Base.{
  ◌≡◌, Bool, true, false, not, ◌&&◌, ◌||◌, if◌then◌else◌, Option, none, some, List, [], ◌∷◌, ◌==◌,
  get_or, select, map, ℕ,
}
use agent_env.Base.Int.{ℤ, ℤ_eq, pos, ltb_ℤ, inc_int32, dec_int32}
use agent_env.Base.Text.{Text, Text_eq, is_empty, trim_space, to_lower, text_lt}
use agent_env.Base.Table.{Table, lookup, lookup_or, insert, delete, delete_value}
use agent_env.Kube.{Key, Key_eq, meta_key, WarmPool, Template, Claim}
use agent_env.Pool.Snapshot.{
  first_non_empty, profile_from_object_meta, desired_replicas_of, primary_template_image,
  pool_state_annotation, pool_state_running, pool_state_stopped,
}

pub record IndexedPool : Type 0 where
  pub name : Text
  pub namespace : Text
  pub template_name : Text
  pub profile : Text
  pub state : Text
  pub replicas : ℤ
  pub ready_replicas : ℤ
  pub created_at : ℕ

pub record IndexedTemplate : Type 0 where
  pub name : Text
  pub namespace : Text
  pub profile : Text
  pub image : Text

pub record PoolIndex : Type 0 where
  pub synced : Bool
  pub pools : Table Key IndexedPool
  pub templates : Table Key IndexedTemplate
  -- the claim's key to its pool's key
  pub claims : Table Key Key
  pub claim_counts : Table Key ℤ

unfoldable pub new_pool_index : PoolIndex
new_pool_index = record {
  synced = false;
  pools = [];
  templates = [];
  claims = [];
  claim_counts = [];
}

unfoldable pub indexed_pool_from_object : WarmPool → IndexedPool
indexed_pool_from_object pool = record {
  name = pool.meta.name;
  namespace = pool.meta.namespace;
  template_name = pool.template_name;
  profile = profile_from_object_meta pool.meta;
  state = first_non_empty (
      lookup_or [] pool_state_annotation pool.meta.annotations
      ∷ lookup_or [] pool_state_annotation pool.meta.labels
      ∷ pool_state_running
      ∷ []);
  replicas = desired_replicas_of pool;
  ready_replicas = pool.ready_replicas;
  created_at = pool.meta.created_at;
}

unfoldable pub indexed_template_from_object : Template → IndexedTemplate
indexed_template_from_object t = record {
  name = t.meta.name;
  namespace = t.meta.namespace;
  profile = profile_from_object_meta t.meta;
  image = primary_template_image t;
}

-- `counts[k]`, where a missing key reads as 0.
unfoldable pub count_of : Key → Table Key ℤ → ℤ
count_of k counts = lookup_or (pos 0) k counts

-- `counts[k]++`.
unfoldable pub count_up : Key → Table Key ℤ → Table Key ℤ
unfolding count_of
count_up k counts = insert k (inc_int32 (count_of k counts)) counts

-- `if counts[k] > 0 { counts[k]-- }`.
unfoldable pub count_down : Key → Table Key ℤ → Table Key ℤ
unfolding count_of
count_down k counts =
    if ltb_ℤ (pos 0) (count_of k counts)
    then insert k (dec_int32 (count_of k counts)) counts
    else counts

unfoldable pub pool_key : IndexedPool → Key
pool_key p = record { namespace = p.namespace; name = p.name }

unfoldable pub template_key : IndexedTemplate → Key
template_key t = record { namespace = t.namespace; name = t.name }

unfoldable pub replace_pools : List IndexedPool → Table Key IndexedPool → Table Key IndexedPool
replace_pools [] m = m
replace_pools (p ∷ ps) m = replace_pools ps (insert (pool_key p) p m)

unfoldable pub replace_templates :
    List IndexedTemplate → Table Key IndexedTemplate → Table Key IndexedTemplate
replace_templates [] m = m
replace_templates (t ∷ ts) m = replace_templates ts (insert (template_key t) t m)

-- The loop of `replace` over the claims: the next claims and their counts.
unfoldable pub replace_claims :
    Table Key Key → Table Key Key → Table Key ℤ → Table Key Key × Table Key ℤ
replace_claims [] claims counts = (claims, counts)
replace_claims ((c, p) ∷ rest) claims counts =
    replace_claims rest (insert c p claims) (count_up p counts)

-- The new index does not depend on the old one.
unfoldable pub replace :
    List IndexedPool → List IndexedTemplate → Table Key Key → PoolIndex → PoolIndex
unfolding replace_pools replace_templates replace_claims
replace pools templates claims idx =
    let next = replace_claims claims [] [] in
    record {
      synced = true;
      pools = replace_pools pools [];
      templates = replace_templates templates [];
      claims = next.0;
      claim_counts = next.1;
    }

unfoldable pub upsert_pool : WarmPool → PoolIndex → PoolIndex
unfolding pool_key indexed_pool_from_object
upsert_pool pool idx =
    let indexed = indexed_pool_from_object pool in
    record idx { pools = insert (pool_key indexed) indexed idx.pools }

unfoldable pub delete_pool : WarmPool → PoolIndex → PoolIndex
delete_pool pool idx =
    let key = meta_key pool.meta in
    record idx {
      pools = delete key idx.pools;
      claim_counts = delete key idx.claim_counts;
      claims = delete_value key idx.claims;
    }

unfoldable pub upsert_template : Template → PoolIndex → PoolIndex
unfolding template_key indexed_template_from_object
upsert_template t idx =
    let indexed = indexed_template_from_object t in
    record idx { templates = insert (template_key indexed) indexed idx.templates }

unfoldable pub delete_template : Template → PoolIndex → PoolIndex
delete_template t idx = record idx { templates = delete (meta_key t.meta) idx.templates }

-- The key of the pool that a claim names, if it names one.
unfoldable pub named_pool_key : Claim → Option Key
named_pool_key claim =
    let pool_name = trim_space claim.warm_pool_name in
    if is_empty pool_name
    then none
    else some (record { namespace = claim.meta.namespace; name = pool_name })

unfoldable pub untrack : Key → Key → PoolIndex → PoolIndex
unfolding count_down
untrack claim pool idx = record idx {
  claims = delete claim idx.claims;
  claim_counts = count_down pool idx.claim_counts;
}

-- An unknown claim is counted off the pool that it names.
unfoldable pub delete_claim : Claim → PoolIndex → PoolIndex
unfolding untrack named_pool_key
delete_claim claim idx =
    let key = meta_key claim.meta in
    elim (lookup key idx.claims) [
      | some pool ↦ untrack key pool idx
      | none ↦ elim (named_pool_key claim) [ none ↦ idx | some pool ↦ untrack key pool idx ]
    ]

unfoldable pub track : Key → Key → Table Key ℤ → PoolIndex → PoolIndex
unfolding count_up
track claim pool counts idx = record idx {
  claims = insert claim pool idx.claims;
  claim_counts = count_up pool counts;
}

unfoldable pub upsert_claim : Claim → PoolIndex → PoolIndex
unfolding delete_claim track named_pool_key count_down
upsert_claim claim idx =
    let key = meta_key claim.meta in
    if claim.meta.deleting then delete_claim claim idx else elim (named_pool_key claim) [
      | none ↦ idx
      | some pool ↦ elim (lookup key idx.claims) [
        | none ↦ track key pool idx.claim_counts idx
        | some old ↦
            if old == pool then idx else track key pool (count_down old idx.claim_counts) idx
      ]
    ]
