-- ===== src/Pool/Index/Exact.antt =====
-- The claim counts of the pool index, update by update.
use agent_env.Base.{
  is_some, Option-cases, arith, some, true, inr, false, ◌⊎◌, none, inl, Bool-cases,
}
use agent_env.Kube.{Key, Key_eq, key_eq, key_eq_iff, meta_key, WarmPool, Claim}
use agent_env.Pool.Index.{
  PoolIndex, new_pool_index, count_of, delete_pool, named_pool_key, delete_claim, upsert_claim, ◌≡◌,
}
use agent_env.Pool.Index.Counts.{
  IsExact, HasRoom, insert_new, remove_known, move_known, remove_unknown,
}
use agent_env.Base.Table.{
  lookup, lookup-delete, entries_with, delete_value-IsMap, entries_with-delete_value,
}
use agent_env.Base.Int.{pos}

pub new_pool_index-IsExact : IsExact new_pool_index
unfolding new_pool_index count_of entries_with lookup
new_pool_index-IsExact = record { is_map = tt; exact = λ q i. pos 0 }

delete_known-IsExact :
    (claim : Claim) (idx : PoolIndex) {pool : Key}
    → IsExact idx
    → HasRoom idx
    → lookup (meta_key claim.meta) idx.claims ≡ some pool
    → IsExact (delete_claim claim idx)
unfolding delete_claim
delete_known-IsExact claim idx {pool} a room e =
    rw (e, delete_claim) (remove_known idx.claims idx.claim_counts a _ pool e room)

-- The index knows the claim, or has no claims of the pool that the claim names.
abbrev pub IsTimely : Claim → PoolIndex → Type 0
IsTimely claim idx =
    (is_some (lookup (meta_key claim.meta) idx.claims) ≡ true)
    ⊎ ((p : Key) → named_pool_key claim ≡ some p → entries_with p idx.claims ≡ 0)

delete_unknown-IsExact :
    (claim : Claim) (idx : PoolIndex)
    → IsExact idx
    → ((p : Key) → named_pool_key claim ≡ some p → entries_with p idx.claims ≡ 0)
    → lookup (meta_key claim.meta) idx.claims ≡ none
    → IsExact (delete_claim claim idx)
unfolding delete_claim
delete_unknown-IsExact claim idx a t e = elim (Option-cases (named_pool_key claim)) [
  | inl n ↦ rw (e, delete_claim) (rw (n, delete_claim) a)
  | inr (p, n) ↦
      rw (e, delete_claim)
        (rw (n, delete_claim) (remove_unknown idx.claims idx.claim_counts _ p a e (t p n)))
]

-- Exact counts stay exact when a claim goes that the index has, or whose pool has no claims there,
-- where the index has fewer than 2^31 - 1 claims.
pub delete_claim-IsExact :
    (claim : Claim) (idx : PoolIndex)
    → IsExact idx
    → HasRoom idx
    → IsTimely claim idx
    → IsExact (delete_claim claim idx)
delete_claim-IsExact claim idx a room t =
    elim (Option-cases (lookup (meta_key claim.meta) idx.claims)) [
      | inr (p, e) ↦ delete_known-IsExact claim idx a room e
      | inl e ↦ elim t [
        | inl known ↦ absurd (ground (arith, e))
        | inr free ↦ delete_unknown-IsExact claim idx a free e
      ]
    ]

upsert_named-IsExact :
    (claim : Claim) (idx : PoolIndex) {p : Key}
    → IsExact idx
    → HasRoom idx
    → claim.meta.deleting ≡ false
    → named_pool_key claim ≡ some p
    → IsExact (upsert_claim claim idx)
unfolding upsert_claim
upsert_named-IsExact claim idx {p} a room d n =
    elim (Option-cases (lookup (meta_key claim.meta) idx.claims)) [
      | inl e ↦
          simp (d, n, e) (insert_new idx.claims idx.claim_counts a (meta_key claim.meta) p e room)
      | inr (old, e) ↦ elim (Bool-cases (key_eq old p)) [
        | inl s ↦ simp (d, n, e, s) a
        | inr s ↦
            simp (d, n, e, s)
              (move_known idx.claims idx.claim_counts a (meta_key claim.meta) old p e
                (λ q. ground (arith, key_eq_iff old p)) room)
      ]
    ]

upsert_unnamed-IsExact :
    (claim : Claim) (idx : PoolIndex)
    → IsExact idx
    → claim.meta.deleting ≡ false
    → named_pool_key claim ≡ none
    → IsExact (upsert_claim claim idx)
unfolding upsert_claim
upsert_unnamed-IsExact claim idx a d n = simp (d, n) a

-- A claim that is not being deleted and is added, or moved to another pool, keeps exact counts
-- exact, where the index has fewer than 2^31 - 1 claims.
pub upsert_claim-IsExact :
    (claim : Claim) (idx : PoolIndex)
    → IsExact idx
    → HasRoom idx
    → claim.meta.deleting ≡ false
    → IsExact (upsert_claim claim idx)
upsert_claim-IsExact claim idx a room d = elim (Option-cases (named_pool_key claim)) [
  | inl n ↦ upsert_unnamed-IsExact claim idx a d n
  | inr (p, n) ↦ upsert_named-IsExact claim idx a room d n
]

pub delete_pool-IsExact :
    (pool : WarmPool) (idx : PoolIndex) → IsExact idx → IsExact (delete_pool pool idx)
unfolding delete_pool count_of
delete_pool-IsExact pool idx a = record {
  is_map = delete_value-IsMap (meta_key pool.meta) idx.claims a.is_map;
  exact = λ q. ground (
    arith,
    a.exact q,
    lookup-delete (meta_key pool.meta) q idx.claim_counts,
    entries_with-delete_value (meta_key pool.meta) q idx.claims,
    key_eq_iff (meta_key pool.meta) q,
  );
}
