-- ===== src/Pool/Index/Views/Active.antt =====
-- The loops of SnapshotPoolsForIntent, claimed pools among its offers, and what ListPools shows.
use agent_env.Base.{
  ◌<◌, ◌≡◌, refl, sym, subst, true, false, not, ◌&&◌, List, [], ◌∷◌, inl, inr, ◌⊎◌, ◌↔◌, arith, In,
  In-map, In-select_of, In-of_map, In-of_select,
}
use agent_env.Kube.{Key, Key_eq}
use agent_env.Pool.Snapshot.{PoolSnapshot}
use agent_env.Pool.Selector.{ResourceIntent}
use agent_env.Pool.Index.{PoolIndex, IndexedPool}
use agent_env.Pool.Index.Counts.{IsExact}
use agent_env.Pool.Index.Views.{
  PoolInfo, PoolListOptions, snapshot_locked, entry_stopped, sort_pool_snapshots,
  snapshot_pools_for_intent, list_pools, pool_info, older, active_snapshots, stopped_snapshots,
  active_or_stopped, intent_wanted, listed,
}
use agent_env.Base.Text.{trim_space, is_empty, text_eq_iff}
use agent_env.Base.Table.{entries_with}
use agent_env.Base.Sort.{In-sort, In-of_sort}

claimed_not_stopped :
    (idx : PoolIndex) (e : Key × IndexedPool)
    → IsExact idx
    → 0 < entries_with e.0 idx.claims
    → entry_stopped idx e ≡ false
unfolding entry_stopped
claimed_not_stopped idx (k, p) a c = ground (arith, a.exact k)

module _ (intent : ResourceIntent) (idx : PoolIndex) where
  pub In-active :
      (e : Key × IndexedPool)
      → In e idx.pools
      → intent_wanted intent idx e ≡ true
      → entry_stopped idx e ≡ false
      → In (snapshot_locked idx e) (active_snapshots intent idx)
  unfolding active_snapshots
  In-active e i w s = In-map (snapshot_locked idx) _ e (
      In-select_of (λ f. intent_wanted intent idx f && not (entry_stopped idx f)) idx.pools e i
        (ground arith))

  pub In-of_active :
      (s : PoolSnapshot)
      → In s (active_snapshots intent idx)
      → (e : Key × IndexedPool) × In e idx.pools
        × (s ≡ snapshot_locked idx e)
        × (intent_wanted intent idx e ≡ true)
        × (entry_stopped idx e ≡ false)
  unfolding active_snapshots
  In-of_active s i =
      let (e, j, q) = In-of_map (snapshot_locked idx) _ s i in
      let (k, w) =
        In-of_select (λ f. intent_wanted intent idx f && not (entry_stopped idx f)) idx.pools e j in
      (e, k, q, ground arith, ground arith)

  pub In-of_stopped :
      (s : PoolSnapshot)
      → In s (stopped_snapshots intent idx)
      → (e : Key × IndexedPool) × In e idx.pools
        × (s ≡ snapshot_locked idx e)
        × (intent_wanted intent idx e ≡ true)
  unfolding stopped_snapshots
  In-of_stopped s i =
      let (e, j, q) = In-of_map (snapshot_locked idx) _ s i in
      let (k, w) =
        In-of_select (λ f. entry_stopped idx f && intent_wanted intent idx f) idx.pools e j in
      (e, k, q, ground arith)

  pub In-either :
      (xs ys : List PoolSnapshot) (s : PoolSnapshot)
      → In s (active_or_stopped xs ys)
      → In s xs ⊎ (In s ys × (xs ≡ []))
  unfolding active_or_stopped sort_pool_snapshots
  In-either [] ys s i = inr (In-of_sort _ s ys i, refl)
  In-either (x ∷ xs) ys s i = inl (In-of_sort _ s (x ∷ xs) i)

  pub In-first :
      (xs ys : List PoolSnapshot) (s : PoolSnapshot) → In s xs → In s (active_or_stopped xs ys)
  unfolding active_or_stopped sort_pool_snapshots
  In-first [] ys s i = elim i [ ]
  In-first (x ∷ xs) ys s i = In-sort _ s (x ∷ xs) i

  -- Where counts are exact, a suitable pool with a claim is always offered, whatever its state.
  pub claimed_pool_offered :
      (e : Key × IndexedPool)
      → IsExact idx
      → In e idx.pools
      → intent_wanted intent idx e ≡ true
      → 0 < entries_with e.0 idx.claims
      → In (snapshot_locked idx e) (snapshot_pools_for_intent intent idx)
  unfolding snapshot_pools_for_intent
  claimed_pool_offered e a i w c = In-first _ _ _ (In-active e i w (claimed_not_stopped idx e a c))

-- The namespace that a listing asks for, or any where it asks for none.
abbrev pub IsListed : PoolListOptions → PoolIndex → Key × IndexedPool → Type 0
IsListed opts idx e =
    ((is_empty (trim_space opts.namespace) ≡ true) ⊎ (e.0.namespace ≡ trim_space opts.namespace))
    × ((opts.include_stopped ≡ true) ⊎ (entry_stopped idx e ≡ false))

-- ListPools shows each pool of the namespace, without the stopped ones unless they are asked for,
-- and no other.
pub list_pools_iff :
    (opts : PoolListOptions) (idx : PoolIndex) (info : PoolInfo)
    → In info (list_pools opts idx)
      ↔ ((e : Key × IndexedPool) × In e idx.pools × (info ≡ pool_info idx e) × IsListed opts idx e)
unfolding list_pools
list_pools_iff opts idx info = (
  λ i.
      let (e, j, q) = In-of_map (pool_info idx) _ info (In-of_sort older info _ i) in
      let (k, w) = In-of_select (listed opts idx) idx.pools e j in
      (e, k, q, ground (arith, text_eq_iff e.0.namespace (trim_space opts.namespace))),
  λ h.
      let (e, i, q, n) = h in
      subst (λ x. In x (list_pools opts idx)) (sym q)
        (In-sort older _ _ (
          In-map (pool_info idx) _ e (
            In-select_of (listed opts idx) idx.pools e i
              (ground (arith, text_eq_iff e.0.namespace (trim_space opts.namespace)))))),
)
