-- ===== src/Pool/Index/Deletion.antt =====
-- A claim that is deleted with a finalizer: the update that sets its deletion timestamp calls
-- deleteClaim, and so does the delete event.
use agent_env.Base.{
  ◌+◌, ◌-◌, ◌≤◌, ◌<◌, ◌≡◌, refl, ap, ◌∙◌, true, none, some, [], ◌∷◌, length, arith, ==_refl,
}
use agent_env.Kube.{Key, Key_eq, key_eq_iff, meta_key, Claim}
use agent_env.Pool.Index.{
  PoolIndex, count_of, count_down, named_pool_key, untrack, delete_claim, upsert_claim,
}
use agent_env.Pool.Index.Counts.{AreCounts, IsExact, HasRoom, count_of-count_down}
use agent_env.Pool.Index.Events.{claim_upserted, claim_deleted, handle, handle_all}
use agent_env.Base.Int.{ℤ, pos, pos_part}
use agent_env.Base.Table.{
  lookup, delete, lookup-delete, entries_with, entries_with-delete, entries_with-le-length, Table,
  delete-IsMap,
}

-- An unknown claim is counted off the pool that it names.
delete_unknown :
    (c : Claim) (idx : PoolIndex) {p : Key}
    → lookup (meta_key c.meta) idx.claims ≡ none
    → named_pool_key c ≡ some p
    → delete_claim c idx ≡ untrack (meta_key c.meta) p idx
unfolding delete_claim
delete_unknown c idx e n = rw (e, delete_claim) (rw (n, delete_claim) refl)

delete_known :
    (c : Claim) (idx : PoolIndex) {p : Key}
    → lookup (meta_key c.meta) idx.claims ≡ some p
    → delete_claim c idx ≡ untrack (meta_key c.meta) p idx
unfolding delete_claim
delete_known c idx e = rw (e, delete_claim) refl

upsert_deleting :
    (c : Claim) (idx : PoolIndex) → c.meta.deleting ≡ true → upsert_claim c idx ≡ delete_claim c idx
unfolding upsert_claim
upsert_deleting c idx d = simp d

twice :
    (c : Claim) (idx : PoolIndex) (p : Key)
    → lookup (meta_key c.meta) idx.claims ≡ some p
    → named_pool_key c ≡ some p
    → c.meta.deleting ≡ true
    → handle_all (claim_upserted c ∷ claim_deleted c ∷ []) idx
      ≡ untrack (meta_key c.meta) p (untrack (meta_key c.meta) p idx)
unfolding handle_all handle untrack
twice c idx p e n d =
    ap (delete_claim c) (upsert_deleting c idx d ∙ delete_known c idx e)
    ∙ delete_unknown c (untrack (meta_key c.meta) p idx)
        (lookup-delete (meta_key c.meta) (meta_key c.meta) idx.claims
          ∙ simp (==_refl (meta_key c.meta)))
        n

-- Two steps down from the number of claims.
count_down_twice :
    (claims : Table Key Key) (counts : Table Key ℤ) (p : Key)
    → AreCounts claims counts
    → length claims < 2147483647
    → 2 ≤ entries_with p claims
    → count_of p (count_down p (count_down p counts)) ≡ pos (entries_with p claims - 2)
count_down_twice claims counts p a room two = ground (
  arith,
  a.exact p,
  entries_with-le-length p claims,
  key_eq_iff p p,
  count_of-count_down p p counts (entries_with p claims - 1),
  count_of-count_down p p (count_down p counts) (entries_with p claims - 2),
)

-- Where counts are exact, a pool has two claims or more and one of them goes in two events, an
-- update that marks it as being deleted and its delete event, the pool's count falls one short of
-- the claims that the index still holds. The index has fewer than 2^31 - 1 claims.
pub deletion_undercounts :
    (c : Claim) (idx : PoolIndex) (p : Key)
    → IsExact idx
    → HasRoom idx
    → lookup (meta_key c.meta) idx.claims ≡ some p
    → named_pool_key c ≡ some p
    → c.meta.deleting ≡ true
    → 2 ≤ entries_with p idx.claims
    → let after = handle_all (claim_upserted c ∷ claim_deleted c ∷ []) idx in
      pos_part (count_of p after.claim_counts) + 1 ≡ entries_with p after.claims
unfolding untrack
deletion_undercounts c idx p a room e n d two = rw (twice c idx p e n d) (
    ground (
      arith,
      count_down_twice idx.claims idx.claim_counts p a room two,
      entries_with-delete p (meta_key c.meta) idx.claims a.is_map,
      entries_with-delete p (meta_key c.meta) (delete (meta_key c.meta) idx.claims)
          (delete-IsMap (meta_key c.meta) idx.claims a.is_map),
      lookup-delete (meta_key c.meta) (meta_key c.meta) idx.claims,
      key_eq_iff (meta_key c.meta) (meta_key c.meta),
      key_eq_iff p p,
      e,
    ))
