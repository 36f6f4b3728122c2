-- ===== src/Pool/Gc/Attempts.antt =====
-- The try of one candidate, deleteManagedPoolGCCandidate.
use agent_env.Base.{
  if_either, Bool-cases, not, ◌||◌, ◌≡◌, refl, Bool, true, false, not, ◌||◌, Option, none, some, [],
  ◌∷◌, ◌++◌, inl, inr, arith, Bool-cases,
}
use agent_env.Base.Text.{Text, Text_eq, is_empty}
use agent_env.Kube.{Key, WarmPool}
use agent_env.Pool.Selector.{PolicyError, ok}
use agent_env.Pool.Lifecycle.{
  Answer, found, missing, failed, Answer-cases, Result-cases, is_managed_pool,
  pool_lifecycle_stopped, pool_has_active_bindings, Answer-cases,
}
use agent_env.Pool.Gc.{
  Deletion-cases, GcAttempt, GcState, Deletion, deleted, already_gone, refused,
  delete_pool_template_if_owned, after_delete, delete_found, delete_managed_pool_gc_candidate,
}

-- While it is tried, the pool is there, managed and stopped, and neither a session nor a claim is
-- bound to it.
pub record IsUnused (a : GcAttempt) (key : Key) : Type 0 where
  pub pool : WarmPool
  pub there : a.get ≡ found pool
  pub managed : is_managed_pool pool ≡ true
  pub at_rest : pool_lifecycle_stopped pool ≡ true
  pub unbound : pool_has_active_bindings key.name key.namespace a.sessions a.claims ≡ ok false

-- A try removes an unused pool and says so, or changes nothing.
pub data IsTry (a : GcAttempt) (key : Key) (s : GcState) (r : (Bool × Option PolicyError) × GcState)
    : Type 0 where
  removes :
      IsUnused a key
      → r.0.0 ≡ true
      → r.1.deleted_pools ≡ s.deleted_pools ++ key ∷ []
      → IsTry a key s r
  keeps : r.0.0 ≡ false → r.1 ≡ s → IsTry a key s r

template_pools :
    (hash_ten : Text → Text) (a : GcAttempt) (t p n : Text) (s : GcState)
    → (delete_pool_template_if_owned hash_ten a t p n s).1.deleted_pools ≡ s.deleted_pools
unfolding delete_pool_template_if_owned
template_pools hash_ten a t p n s = elim (Answer-cases (a.get_template)) [
  | inl e ↦ rw (e, delete_pool_template_if_owned) refl
  | inr (inl (x, e)) ↦ rw (e, delete_pool_template_if_owned) refl
  | inr (inr (template, e)) ↦
      rw (e, delete_pool_template_if_owned)
        (elim (Deletion-cases a.delete_template_answer) [
          | inl (inl d) ↦ rw d (ground arith)
          | inl (inr d) ↦ rw d (ground arith)
          | inr (x, d) ↦ rw d (ground arith)
        ])
]

module _ (hash_ten : Text → Text) (a : GcAttempt) (key : Key) (s : GcState) where
  after_delete-removes :
      (pool : WarmPool)
      → ((after_delete hash_ten a key pool s).0.0 ≡ true)
        × ((after_delete hash_ten a key pool s).1.deleted_pools ≡ s.deleted_pools ++ key ∷ [])
  unfolding after_delete
  after_delete-removes pool =
      if_either
        (λ (r : (Bool × Option PolicyError) × GcState).
          (r.0.0 ≡ true) × (r.1.deleted_pools ≡ s.deleted_pools ++ key ∷ []))
        (is_empty pool.template_name) (refl, refl)
        (refl, template_pools hash_ten a pool.template_name key.name key.namespace _)

  delete_unused :
      (pool : WarmPool)
      → IsUnused a key
      → (d : Deletion)
      → IsTry a key s (elim d [
        | refused e ↦ ((false, some e), s)
        | deleted ↦ after_delete hash_ten a key pool s
        | already_gone ↦ after_delete hash_ten a key pool s
      ])
  delete_unused pool u deleted = let (t, l) = after_delete-removes pool in IsTry.removes u t l
  delete_unused pool u already_gone = let (t, l) = after_delete-removes pool in IsTry.removes u t l
  delete_unused pool u (refused e) = IsTry.keeps refl refl

  delete_found-IsTry :
      (pool : WarmPool) → a.get ≡ found pool → IsTry a key s (delete_found hash_ten a key pool s)
  unfolding delete_found
  delete_found-IsTry pool e =
      elim (Bool-cases (not (is_managed_pool pool) || not (pool_lifecycle_stopped pool))) [
        | inl t ↦ rw t (IsTry.keeps refl refl)
        | inr f ↦
            rw f
              (elim (Result-cases
                (pool_has_active_bindings key.name key.namespace a.sessions a.claims)) [
                  | inl (x, b) ↦ rw b (IsTry.keeps refl refl)
                  | inr (true, b) ↦ rw b (IsTry.keeps refl refl)
                  | inr (false, b) ↦ rw b (
                      delete_unused pool
                        (record {
                          pool = pool;
                          there = e;
                          managed = ground (arith, f);
                          at_rest = ground (arith, f);
                          unbound = b;
                        })
                        a.delete)
                ])
      ]

  tried :
      (answer : Answer WarmPool)
      → a.get ≡ answer
      → IsTry a key s (elim answer [
        | missing ↦ ((false, none), s)
        | failed e ↦ ((false, some e), s)
        | found pool ↦ delete_found hash_ten a key pool s
      ])
  tried missing e = IsTry.keeps refl refl
  tried (failed x) e = IsTry.keeps refl refl
  tried (found pool) e = delete_found-IsTry pool e

  pub delete_managed_pool_gc_candidate-IsTry :
      IsTry a key s (delete_managed_pool_gc_candidate hash_ten a key s)
  unfolding delete_managed_pool_gc_candidate
  delete_managed_pool_gc_candidate-IsTry = tried a.get refl
