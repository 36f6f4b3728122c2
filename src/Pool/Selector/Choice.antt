-- ===== src/Pool/Selector/Choice.antt =====
-- What SelectPool chooses.
use agent_env.Base.{
  ◌≡◌, refl, true, false, ◌⊎◌, inl, inr, List, [], ◌∷◌, In, All-In, arith, Bool-cases, In-of_select,
  In-select_of,
}
use agent_env.Base.Int.{◌≤ℤ◌}
use agent_env.Base.Text.{text_eq_iff, is_empty, trim_space, text_lt}
use agent_env.Base.Sort.{In-of_sort, In-sort, sort-IsSorted, IsSorted}
use agent_env.Pool.Snapshot.{PoolSnapshot}
use agent_env.Pool.Selector.{
  normalized, ResourceIntent, PoolSelection, profile_capacity, no_pool_for_profile, no_pool, Result,
  ok, err, better, select_first, select_pool, wanted,
}
use agent_env.Pool.Selector.Order.{better-IsOrder}

-- The pool lies in the request's namespace, and has its profile and its image where it names them.
pub record Suits (intent : ResourceIntent) (p : PoolSnapshot) : Type 0 where
  pub same_namespace : p.namespace ≡ (normalized intent.scope).namespace
  pub same_profile :
      is_empty (trim_space intent.profile) ≡ false → p.profile ≡ trim_space intent.profile
  pub same_image : is_empty (trim_space intent.image) ≡ false → p.image ≡ trim_space intent.image

-- `q` has no more ready replicas, nor more desired ones at a tie, nor an earlier name at a second.
pub record RanksBelow (q p : PoolSnapshot) : Type 0 where
  pub by_ready : q.ready_replicas ≤ℤ p.ready_replicas
  pub by_desired : q.ready_replicas ≡ p.ready_replicas → q.desired_replicas ≤ℤ p.desired_replicas
  pub by_name :
      q.ready_replicas ≡ p.ready_replicas
      → q.desired_replicas ≡ p.desired_replicas
      → text_lt q.name p.name ≡ false

-- A selection is a suitable pool of the list that every suitable pool ranks below.
abbrev pub IsChoice : ResourceIntent → List PoolSnapshot → Result PoolSelection → Type 0
IsChoice intent pools (ok s) =
    In s.pool pools
    × Suits intent s.pool
    × (s.reason ≡ profile_capacity)
    × (s.pool_name ≡ s.pool.name)
    × (s.namespace ≡ s.pool.namespace)
    × ((q : PoolSnapshot) → In q pools → Suits intent q → RanksBelow q s.pool)
IsChoice intent pools (err e) =
    ((q : PoolSnapshot) → In q pools → ¬ Suits intent q)
    × ((e ≡ no_pool_for_profile) ⊎ (e ≡ no_pool))

better→RanksBelow : (q p : PoolSnapshot) → better q p ≡ false → RanksBelow q p
unfolding better
better→RanksBelow q p h = ground arith

wanted→Suits :
    (intent : ResourceIntent) (p : PoolSnapshot)
    → wanted
        (normalized intent.scope).namespace
        (trim_space intent.profile)
        (trim_space intent.image)
        p
      ≡ true
    → Suits intent p
unfolding wanted
wanted→Suits intent p h = ground (
  arith,
  text_eq_iff p.namespace (normalized intent.scope).namespace,
  text_eq_iff p.profile (trim_space intent.profile),
  text_eq_iff p.image (trim_space intent.image),
)

Suits→wanted :
    (intent : ResourceIntent) (p : PoolSnapshot)
    → Suits intent p
    → wanted
        (normalized intent.scope).namespace
        (trim_space intent.profile)
        (trim_space intent.image)
        p
      ≡ true
unfolding wanted
Suits→wanted intent p h = ground (
  arith,
  text_eq_iff p.namespace (normalized intent.scope).namespace,
  text_eq_iff p.profile (trim_space intent.profile),
  text_eq_iff p.image (trim_space intent.image),
)

-- The head of the sorted candidates, or the error where there is none.
select_first-IsChoice :
    (intent : ResourceIntent) (pools sorted : List PoolSnapshot)
    → ((q : PoolSnapshot) → In q sorted → In q pools × Suits intent q)
    → ((q : PoolSnapshot) → In q pools → Suits intent q → In q sorted)
    → IsSorted better sorted
    → IsChoice intent pools (select_first (trim_space intent.profile) sorted)
unfolding select_first
select_first-IsChoice intent pools [] sound complete s =
    elim (Bool-cases (is_empty (trim_space intent.profile))) [
      | inl e ↦ rw e ((λ q i h. complete q i h), inr refl)
      | inr e ↦ rw e ((λ q i h. complete q i h), inl refl)
    ]
select_first-IsChoice intent pools (p ∷ ps) sound complete s = (
  (sound p (inl refl)).0,
  (sound p (inl refl)).1,
  refl,
  refl,
  refl,
  λ q i h. better→RanksBelow q p (elim (complete q i h) [
    | inl e ↦ rw e (better-IsOrder.irrefl p)
    | inr j ↦ All-In (λ r. better r p ≡ false) ps q s.0 j
  ]),
)

-- With no pinned name, SelectPool returns a suitable pool that no suitable pool outranks, and an
-- error exactly when there is no suitable pool.
pub select_pool-IsChoice :
    (intent : ResourceIntent) (pools : List PoolSnapshot)
    → is_empty intent.pinned_pool_name ≡ true
    → IsChoice intent pools (select_pool intent pools)
unfolding select_pool
select_pool-IsChoice intent pools h = rw h (
    select_first-IsChoice intent pools _
      (λ q i.
        let (j, e) = In-of_select _ pools q (In-of_sort better q _ i) in
        (j, wanted→Suits intent q e))
      (λ q i s. In-sort better q _ (In-select_of _ pools q i (Suits→wanted intent q s)))
      (sort-IsSorted better better-IsOrder _))
