-- ===== src/Pool/Index/Views.antt =====
-- What the gateway reads from the pool index: ListPools, SnapshotPools, SnapshotPoolsForIntent and
-- SnapshotPool of pkg/gateway/pool_index.go. `range` over the pools is a loop over their entries.
pub mod Active
pub mod Offers
use agent_env.Base.{
  Bool, ℕ, [], get_or, List, Option, map, select, if◌then◌else◌, ◌||◌, ◌==◌, ◌&&◌, none, false, not,
  some, eqb, true, ltb,
}
use agent_env.Kube.{Key, Key_eq}
use agent_env.Pool.Snapshot.{
  PoolSnapshot, first_non_empty, default_pool_profile, pool_state_running, pool_state_stopped,
}
use agent_env.Pool.Selector.{RequestScope, normalized, ResourceIntent, fits}
use agent_env.Pool.Index.{PoolIndex, IndexedPool, IndexedTemplate, count_of, ◌∷◌}
use agent_env.Base.Int.{ℤ, ℤ_eq, pos, ltb_ℤ}
use agent_env.Base.Text.{Text, Text_eq, is_empty, trim_space, to_lower, text_lt}
use agent_env.Base.Table.{Table, lookup}
use agent_env.Base.Sort.{sort}

pub record PoolListOptions : Type 0 where
  pub namespace : Text
  pub include_stopped : Bool

pub record PoolInfo : Type 0 where
  pub name : Text
  pub namespace : Text
  pub profile : Text
  pub image : Text
  pub replicas : ℤ
  pub ready_replicas : ℤ
  pub allocated_replicas : ℤ
  pub state : Text
  pub created_at : ℕ

abbrev no_template : IndexedTemplate
no_template = record { name = []; namespace = []; profile = []; image = [] }

template_of : PoolIndex → IndexedPool → IndexedTemplate
template_of idx p =
    get_or (lookup (record { namespace = p.namespace; name = p.template_name }) idx.templates)
      no_template

-- A pool that holds a claim is never stopped.
unfoldable pub indexed_pool_stopped : IndexedPool → ℤ → Bool
indexed_pool_stopped p allocated =
    if ltb_ℤ (pos 0) allocated
    then false
    else if to_lower (trim_space p.state) == pool_state_stopped
    then true
    else p.replicas == pos 0 && p.ready_replicas == pos 0

unfoldable pub snapshot_locked : PoolIndex → Key × IndexedPool → PoolSnapshot
unfolding template_of count_of
snapshot_locked idx (key, p) = record {
  name = p.name;
  namespace = p.namespace;
  profile = first_non_empty (p.profile ∷ (template_of idx p).profile ∷ default_pool_profile ∷ []);
  image = (template_of idx p).image;
  desired_replicas = p.replicas;
  ready_replicas = p.ready_replicas;
  allocated_replicas = count_of key idx.claim_counts;
}

abbrev by_name : PoolSnapshot → PoolSnapshot → Bool
by_name a b = text_lt a.name b.name

unfoldable pub sort_pool_snapshots : List PoolSnapshot → List PoolSnapshot
sort_pool_snapshots = sort by_name

-- The pool's namespace is asked for, or none is.
in_namespace : Text → Key × IndexedPool → Bool
in_namespace namespace (key, p) = is_empty namespace || key.namespace == namespace

unfoldable pub snapshot_pools : Text → PoolIndex → List PoolSnapshot
unfolding in_namespace snapshot_locked sort_pool_snapshots
snapshot_pools namespace idx =
    sort_pool_snapshots
      (map (snapshot_locked idx) (select (in_namespace (trim_space namespace)) idx.pools))

unfoldable pub entry_stopped : PoolIndex → Key × IndexedPool → Bool
unfolding indexed_pool_stopped count_of
entry_stopped idx (key, p) = indexed_pool_stopped p (count_of key idx.claim_counts)

-- The tests by which both loops of SnapshotPoolsForIntent skip an entry.
unfoldable pub entry_wanted : Text → Text → Text → PoolIndex → Key × IndexedPool → Bool
unfolding snapshot_locked fits
entry_wanted namespace profile image idx e =
    e.0.namespace == namespace && fits profile image (snapshot_locked idx e)

unfoldable pub intent_wanted : ResourceIntent → PoolIndex → Key × IndexedPool → Bool
unfolding entry_wanted normalized
intent_wanted intent =
    entry_wanted (normalized intent.scope).namespace (trim_space intent.profile)
      (trim_space intent.image)

-- The first loop of SnapshotPoolsForIntent.
unfoldable pub active_snapshots : ResourceIntent → PoolIndex → List PoolSnapshot
unfolding intent_wanted entry_stopped snapshot_locked
active_snapshots intent idx =
    map (snapshot_locked idx)
      (select (λ e. intent_wanted intent idx e && not (entry_stopped idx e)) idx.pools)

-- The second loop.
unfoldable pub stopped_snapshots : ResourceIntent → PoolIndex → List PoolSnapshot
unfolding intent_wanted entry_stopped snapshot_locked
stopped_snapshots intent idx =
    map (snapshot_locked idx)
      (select (λ e. entry_stopped idx e && intent_wanted intent idx e) idx.pools)

unfoldable pub active_or_stopped : List PoolSnapshot → List PoolSnapshot → List PoolSnapshot
unfolding sort_pool_snapshots
active_or_stopped [] stopped = sort_pool_snapshots stopped
active_or_stopped (s ∷ rest) stopped = sort_pool_snapshots (s ∷ rest)

-- Stopped pools are a last resort.
unfoldable pub snapshot_pools_for_intent : ResourceIntent → PoolIndex → List PoolSnapshot
unfolding active_snapshots stopped_snapshots active_or_stopped
snapshot_pools_for_intent intent idx =
    active_or_stopped (active_snapshots intent idx) (stopped_snapshots intent idx)

unfoldable pub snapshot_pool : Key → PoolIndex → Option PoolSnapshot
unfolding snapshot_locked
snapshot_pool key idx = elim (lookup key idx.pools) [
  | none ↦ none
  | some p ↦ some (snapshot_locked idx (key, p))
]

unfoldable pub pool_info : PoolIndex → Key × IndexedPool → PoolInfo
unfolding template_of count_of
pool_info idx (key, p) = record {
  name = p.name;
  namespace = p.namespace;
  profile = first_non_empty (p.profile ∷ (template_of idx p).profile ∷ default_pool_profile ∷ []);
  image = (template_of idx p).image;
  replicas = p.replicas;
  ready_replicas = p.ready_replicas;
  allocated_replicas = count_of key idx.claim_counts;
  state = first_non_empty (p.state ∷ pool_state_running ∷ []);
  created_at = p.created_at;
}

unfoldable pub older : PoolInfo → PoolInfo → Bool
older a b =
    if eqb a.created_at b.created_at then text_lt a.name b.name else ltb a.created_at b.created_at

unfoldable pub listed : PoolListOptions → PoolIndex → Key × IndexedPool → Bool
unfolding in_namespace entry_stopped
listed opts idx e =
    in_namespace (trim_space opts.namespace) e
    && (opts.include_stopped || not (entry_stopped idx e))

unfoldable pub list_pools : PoolListOptions → PoolIndex → List PoolInfo
unfolding pool_info listed older
list_pools opts idx = sort older (map (pool_info idx) (select (listed opts idx) idx.pools))
