-- ===== src/Pool/Index/Events.antt =====
-- The informer handlers that addInformerHandlers registers: which method of the index an event of
-- the API server calls. Events come one at a time, in any order.
pub mod Runs
use agent_env.Base.{
  ℕ, zero, suc, ◌+◌, ◌-◌, ◌*◌, ◌%◌, ◌≤◌, ◌<◌, ◌≡◌, ◌≢◌, refl, sym, ap, ap₂, subst, ◌∙◌, Bool, true,
  false, not, ◌&&◌, ◌||◌, if◌then◌else◌, Option, none, some, List, [], ◌∷◌, ◌++◌, map, ◌==◌, get_or,
  select, inl, inr, ◌⊎◌, ◌↔◌, length, arith, Bool-cases, Option-cases, In, All, All-In, eqb, ltb,
  leb, is_some,
}
use agent_env.Kube.{WarmPool, Template, Claim}
use agent_env.Pool.Index.{
  PoolIndex, upsert_pool, delete_pool, upsert_template, delete_template, upsert_claim, delete_claim,
}

-- AddFunc and UpdateFunc of a kind do the same.
pub data Event : Type 0 where
  pool_upserted pool_deleted : WarmPool → Event
  template_upserted template_deleted : Template → Event
  claim_upserted claim_deleted : Claim → Event

unfoldable pub handle : Event → PoolIndex → PoolIndex
handle (pool_upserted p) idx = upsert_pool p idx
handle (pool_deleted p) idx = delete_pool p idx
handle (template_upserted t) idx = upsert_template t idx
handle (template_deleted t) idx = delete_template t idx
handle (claim_upserted c) idx = upsert_claim c idx
handle (claim_deleted c) idx = delete_claim c idx

unfoldable pub handle_all : List Event → PoolIndex → PoolIndex
handle_all [] idx = idx
handle_all (e ∷ es) idx = handle_all es (handle e idx)
