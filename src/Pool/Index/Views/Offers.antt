-- ===== src/Pool/Index/Views/Offers.antt =====
-- Which pools SnapshotPoolsForIntent offers.
use agent_env.Base.{
  ◌≡◌, refl, sym, subst, true, ◌&&◌, List, [], ◌∷◌, inl, inr, ◌⊎◌, ◌↔◌, arith, Bool-cases, In,
  In-map, In-select_of,
}
use agent_env.Base.Int.{pos, ◌≤ℤ◌, eqb_ℤ_iff}
use agent_env.Kube.{Key, Key_eq}
use agent_env.Pool.Snapshot.{PoolSnapshot, pool_state_stopped}
use agent_env.Pool.Selector.{ResourceIntent, fits, normalized}
use agent_env.Pool.Index.{PoolIndex, IndexedPool, count_of}
use agent_env.Pool.Index.Views.{
  snapshot_locked, entry_stopped, sort_pool_snapshots, snapshot_pools_for_intent, active_snapshots,
  stopped_snapshots, active_or_stopped, intent_wanted, entry_wanted, indexed_pool_stopped,
}
use agent_env.Base.Text.{trim_space, is_empty, text_eq_iff, to_lower}
use agent_env.Base.Sort.{In-sort}
use agent_env.Pool.Index.Views.Active.{In-active, In-of_active, In-of_stopped, In-either, In-first}

module _ (intent : ResourceIntent) (idx : PoolIndex) where
  no_snapshot : (xs : List PoolSnapshot) → ((s : PoolSnapshot) → ¬ In s xs) → xs ≡ []
  no_snapshot [] h = refl
  no_snapshot (x ∷ xs) h = absurd (h x (inl refl))

  In-last :
      (xs ys : List PoolSnapshot) (s : PoolSnapshot)
      → xs ≡ []
      → In s ys
      → In s (active_or_stopped xs ys)
  unfolding active_or_stopped sort_pool_snapshots
  In-last [] ys s z i = In-sort _ s ys i
  In-last (x ∷ xs) ys s z i = absurd (cc z)

  In-stopped :
      (e : Key × IndexedPool)
      → In e idx.pools
      → intent_wanted intent idx e ≡ true
      → entry_stopped idx e ≡ true
      → In (snapshot_locked idx e) (stopped_snapshots intent idx)
  unfolding stopped_snapshots
  In-stopped e i w s = In-map (snapshot_locked idx) _ e (
      In-select_of (λ f. entry_stopped idx f && intent_wanted intent idx f) idx.pools e i
        (ground arith))

  -- The pool is asked for: it is indexed under the namespace of the request, and its snapshot has the
  -- profile and the image that the request names.
  pub record IsAskedFor (e : Key × IndexedPool) : Type 0 where
    pub same_namespace : e.0.namespace ≡ (normalized intent.scope).namespace
    pub same_profile :
        (is_empty (trim_space intent.profile) ≡ true)
        ⊎ ((snapshot_locked idx e).profile ≡ trim_space intent.profile)
    pub same_image :
        (is_empty (trim_space intent.image) ≡ true)
        ⊎ ((snapshot_locked idx e).image ≡ trim_space intent.image)

  wanted→IsAskedFor : (e : Key × IndexedPool) → intent_wanted intent idx e ≡ true → IsAskedFor e
  unfolding intent_wanted entry_wanted fits
  wanted→IsAskedFor e h = ground (
    arith,
    text_eq_iff e.0.namespace (normalized intent.scope).namespace,
    text_eq_iff (snapshot_locked idx e).profile (trim_space intent.profile),
    text_eq_iff (snapshot_locked idx e).image (trim_space intent.image),
  )

  IsAskedFor→wanted : (e : Key × IndexedPool) → IsAskedFor e → intent_wanted intent idx e ≡ true
  unfolding intent_wanted entry_wanted fits
  IsAskedFor→wanted e h = ground (
    arith,
    h.same_namespace,
    h.same_profile,
    h.same_image,
    text_eq_iff e.0.namespace (normalized intent.scope).namespace,
    text_eq_iff (snapshot_locked idx e).profile (trim_space intent.profile),
    text_eq_iff (snapshot_locked idx e).image (trim_space intent.image),
  )

  -- No claim is counted for the pool, and it is marked as stopped or has no replicas at all.
  abbrev pub IsAtRest : Key × IndexedPool → Type 0
  IsAtRest (key, p) =
      (count_of key idx.claim_counts ≤ℤ pos 0)
      × ((to_lower (trim_space p.state) ≡ pool_state_stopped)
          ⊎ ((p.replicas ≡ pos 0) × (p.ready_replicas ≡ pos 0)))

  stopped→IsAtRest : (e : Key × IndexedPool) → entry_stopped idx e ≡ true → IsAtRest e
  unfolding entry_stopped indexed_pool_stopped
  stopped→IsAtRest (k, p) h = ground (
    arith,
    h,
    text_eq_iff (to_lower (trim_space p.state)) pool_state_stopped,
    eqb_ℤ_iff p.replicas (pos 0),
    eqb_ℤ_iff p.ready_replicas (pos 0),
  )

  IsAtRest→stopped : (e : Key × IndexedPool) → IsAtRest e → entry_stopped idx e ≡ true
  unfolding entry_stopped indexed_pool_stopped
  IsAtRest→stopped (k, p) h = ground (
    arith,
    text_eq_iff (to_lower (trim_space p.state)) pool_state_stopped,
    eqb_ℤ_iff p.replicas (pos 0),
    eqb_ℤ_iff p.ready_replicas (pos 0),
  )

  -- Every pool that is asked for is at rest.
  abbrev pub AllAtRest : Type 0
  AllAtRest = (f : Key × IndexedPool) → In f idx.pools → IsAskedFor f → IsAtRest f

  active_none : AllAtRest → active_snapshots intent idx ≡ []
  active_none h = no_snapshot _ (λ s i.
      let (e, j, q, w, r) = In-of_active intent idx s i in
      let t = IsAtRest→stopped e (h e j (wanted→IsAskedFor e w)) in absurd (cc (t, r)))

  -- SnapshotPoolsForIntent offers exactly the pools of the index that lie in the namespace of the
  -- request and have the profile and the image that it names, and among these the pools at rest
  -- (without a counted claim, and marked as stopped or with no replicas) only where all are at rest.
  pub snapshot_pools_for_intent_iff :
      (s : PoolSnapshot)
      → In s (snapshot_pools_for_intent intent idx) ↔ (
          (e : Key × IndexedPool) × In e idx.pools
          × (s ≡ snapshot_locked idx e)
          × IsAskedFor e
          × ((¬ IsAtRest e) ⊎ AllAtRest))
  unfolding snapshot_pools_for_intent
  snapshot_pools_for_intent_iff s = (
    λ i. elim (In-either intent idx _ _ s i) [
      | inl j ↦
          let (e, k, q, w, r) = In-of_active intent idx s j in
          (e, k, q, wanted→IsAskedFor e w, inl (λ n. cc (r, IsAtRest→stopped e n)))
      | inr (j, z) ↦
          let (e, k, q, w) = In-of_stopped intent idx s j in
          (
            e,
            k,
            q,
            wanted→IsAskedFor e w,
            inr (λ f l v. elim (Bool-cases (entry_stopped idx f)) [
              | inl t ↦ stopped→IsAtRest f t
              | inr n ↦ absurd (
                  subst (In (snapshot_locked idx f)) z
                    (In-active intent idx f l (IsAskedFor→wanted f v) n))
            ]),
          )
    ],
    λ h.
        let (e, i, q, w, r) = h in
        let t = IsAskedFor→wanted e w in
        subst
          (λ x.
            In x (active_or_stopped (active_snapshots intent idx) (stopped_snapshots intent idx)))
          (sym q)
          (elim (Bool-cases (entry_stopped idx e)) [
            | inr n ↦ In-first intent idx _ _ _ (In-active intent idx e i t n)
            | inl y ↦ elim r [
              | inl n ↦ absurd (n (stopped→IsAtRest e y))
              | inr a ↦ In-last _ _ _ (active_none a) (In-stopped e i t y)
            ]
          ]),
  )
