-- ===== src/Pool/Index/Events/Runs.antt =====
-- The pool index after any sequence of informer events.
use agent_env.Base.{
  ◌+◌, ◌≤◌, ◌<◌, ◌≡◌, sym, subst, true, List, [], ◌∷◌, inl, inr, length, arith, Bool-cases,
}
use agent_env.Kube.{Key_eq, meta_key, Claim}
use agent_env.Pool.Index.{
  PoolIndex, upsert_pool, delete_pool, upsert_template, delete_template, upsert_claim, delete_claim,
  trim_space,
}
use agent_env.Pool.Index.Counts.{IsExact, HasRoom}
use agent_env.Pool.Index.Exact.{
  IsTimely, delete_claim-IsExact, upsert_claim-IsExact, delete_pool-IsExact,
}
use agent_env.Pool.Index.Events.{
  Event, pool_upserted, pool_deleted, template_upserted, template_deleted, claim_upserted,
  claim_deleted, handle, handle_all,
}
use agent_env.Base.Table.{length-insert, length-delete, length-delete_value}

-- A claim that goes, or that is being deleted, is one that the index has, or of a pool with no claims.
abbrev pub IsInTime : Event → PoolIndex → Type 0
IsInTime (claim_upserted c) idx = c.meta.deleting ≡ true → IsTimely c idx
IsInTime (claim_deleted c) idx = IsTimely c idx
IsInTime (pool_upserted p) idx = Unit
IsInTime (pool_deleted p) idx = Unit
IsInTime (template_upserted t) idx = Unit
IsInTime (template_deleted t) idx = Unit

abbrev pub AreInTime : List Event → PoolIndex → Type 0
AreInTime [] idx = Unit
AreInTime (e ∷ es) idx = IsInTime e idx × AreInTime es (handle e idx)

upsert_deleting :
    (c : Claim) (idx : PoolIndex) → c.meta.deleting ≡ true → upsert_claim c idx ≡ delete_claim c idx
unfolding upsert_claim
upsert_deleting c idx d = simp d

handle-IsExact :
    (e : Event) (idx : PoolIndex)
    → IsExact idx
    → HasRoom idx
    → IsInTime e idx
    → IsExact (handle e idx)
unfolding handle upsert_pool upsert_template delete_template
handle-IsExact (pool_upserted p) idx a room t = a
handle-IsExact (pool_deleted p) idx a room t = delete_pool-IsExact p idx a
handle-IsExact (template_upserted x) idx a room t = a
handle-IsExact (template_deleted x) idx a room t = a
handle-IsExact (claim_deleted c) idx a room t = delete_claim-IsExact c idx a room t
handle-IsExact (claim_upserted c) idx a room t = elim (Bool-cases c.meta.deleting) [
  | inl d ↦ subst IsExact (sym (upsert_deleting c idx d)) (delete_claim-IsExact c idx a room (t d))
  | inr d ↦ upsert_claim-IsExact c idx a room d
]

-- An event adds at most one claim.
length-handle : (e : Event) (idx : PoolIndex) → length (handle e idx).claims ≤ length idx.claims + 1
unfolding handle upsert_pool upsert_template delete_template delete_pool upsert_claim
length-handle (pool_upserted p) idx = omega arith
length-handle (pool_deleted p) idx = omega (arith, length-delete_value (meta_key p.meta) idx.claims)
length-handle (template_upserted x) idx = omega arith
length-handle (template_deleted x) idx = omega arith
length-handle (claim_deleted c) idx = ground (arith, length-delete (meta_key c.meta) idx.claims)
length-handle (claim_upserted c) idx = ground (
  arith,
  length-delete (meta_key c.meta) idx.claims,
  length-insert (meta_key c.meta)
      (record { namespace = c.meta.namespace; name = trim_space c.warm_pool_name }) idx.claims,
)

-- From an index with exact counts, after any informer events in time, where claims and events are
-- fewer than 2^31, each pool's count is the number of the claims that the index holds for it.
pub handle_all-IsExact :
    (es : List Event) (idx : PoolIndex)
    → IsExact idx
    → length idx.claims + length es < 2147483648
    → AreInTime es idx
    → IsExact (handle_all es idx)
unfolding handle_all
handle_all-IsExact [] idx a room t = a
handle_all-IsExact (e ∷ es) idx a room t =
    handle_all-IsExact es (handle e idx) (handle-IsExact e idx a (omega arith) t.0)
      (omega (arith, length-handle e idx)) t.1
