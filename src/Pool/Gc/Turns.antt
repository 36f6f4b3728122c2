-- ===== src/Pool/Gc/Turns.antt =====
-- One turn of the loop that deletes the candidates.
use agent_env.Base.{
  ℕ, suc, ◌≡◌, refl, ap, ◌∙◌, Bool, true, false, if◌then◌else◌, Option, none, some, List, [], ◌∷◌,
  ◌++◌, inl, inr, ◌⊎◌, Bool-cases,
}
use agent_env.Base.Text.{Text}
use agent_env.Base.Int.{ℤ, pos, ltb_ℤ}
use agent_env.Kube.{Key, meta_key}
use agent_env.Pool.Selector.{PolicyError}
use agent_env.Pool.Gc.{ManagedPoolGcCandidate, GcAttempt, GcState, delete_managed_pool_gc_candidate}
use agent_env.Pool.Gc.Attempts.{IsUnused, IsTry, delete_managed_pool_gc_candidate-IsTry}
use agent_env.Pool.Gc.Pass.{too_young, delete_loop}

abbrev pub Out : Type 0
Out = (ℕ × Option PolicyError) × GcState

abbrev pub key_of : ManagedPoolGcCandidate → Key
key_of c = meta_key c.pool.meta

module _ (hash_ten : Text → Text) (attempts : Key → GcAttempt) (now min_idle excess : ℤ) where
  abbrev try : ManagedPoolGcCandidate → GcState → (Bool × Option PolicyError) × GcState
  try c s = delete_managed_pool_gc_candidate hash_ten (attempts (key_of c)) (key_of c) s

  abbrev pub loop : List ManagedPoolGcCandidate → ℕ → GcState → Out
  loop cs n s = delete_loop hash_ten attempts now min_idle excess cs n s

  -- What the loop returns from a candidate on, by what became of that candidate.
  pub data IsTurn (c : ManagedPoolGcCandidate) (cs : List ManagedPoolGcCandidate) (n : ℕ)
      (s : GcState) (out : Out) : Type 0 where
    enough : ltb_ℤ (pos n) excess ≡ false → out ≡ ((n, none), s) → IsTurn c cs n s out
    passes :
        ltb_ℤ (pos n) excess ≡ true
        → too_young now min_idle c ≡ true
        → out ≡ loop cs n s
        → IsTurn c cs n s out
    keeps : (try c s).0.0 ≡ false → out ≡ loop cs n s → IsTurn c cs n s out
    fails :
        (e : PolicyError) → (try c s).0.1 ≡ some e → out ≡ ((n, some e), s) → IsTurn c cs n s out
    removes :
        ltb_ℤ (pos n) excess ≡ true
        → too_young now min_idle c ≡ false
        → IsUnused (attempts (key_of c)) (key_of c)
        → (t : GcState) → t.deleted_pools ≡ s.deleted_pools ++ key_of c ∷ []
        → (out ≡ loop cs (suc n) t)
          ⊎ ((e : PolicyError) × ((try c s).0.1 ≡ some e) × (out ≡ ((n, some e), t)))
        → IsTurn c cs n s out

  -- A turn that tries the candidate.
  tried-IsTurn :
      (c : ManagedPoolGcCandidate) (cs : List ManagedPoolGcCandidate) (n : ℕ) (s : GcState)
      (r : (Bool × Option PolicyError) × GcState) (error : Option PolicyError) (gone : Bool)
      → try c s ≡ r
      → r.0.1 ≡ error
      → r.0.0 ≡ gone
      → ltb_ℤ (pos n) excess ≡ true
      → too_young now min_idle c ≡ false
      → IsTry (attempts (key_of c)) (key_of c) s r
      → IsTurn c cs n s (elim error [
        | some e ↦ ((n, some e), r.1)
        | none ↦ if gone then loop cs (suc n) r.1 else loop cs n r.1
      ])
  tried-IsTurn c cs n s r none true p q g l y (IsTry.removes u t d) = removes l y u r.1 d (inl refl)
  tried-IsTurn c cs n s r (some e) true p q g l y (IsTry.removes u t d) =
      removes l y u r.1 d (inr (e, ap (λ x. x.0.1) p ∙ q, refl))
  tried-IsTurn c cs n s r none false p q g l y (IsTry.keeps f d) =
      keeps (ap (λ x. x.0.0) p ∙ g) (ap (loop cs n) d)
  tried-IsTurn c cs n s r (some e) false p q g l y (IsTry.keeps f d) =
      fails e (ap (λ x. x.0.1) p ∙ q) (ap (λ t. ((n, some e), t)) d)
  tried-IsTurn c cs n s r error false p q g l y (IsTry.removes u t d) = cc
  tried-IsTurn c cs n s r error true p q g l y (IsTry.keeps f d) = cc

  pub delete_loop-IsTurn :
      (c : ManagedPoolGcCandidate) (cs : List ManagedPoolGcCandidate) (n : ℕ) (s : GcState)
      → IsTurn c cs n s (loop (c ∷ cs) n s)
  unfolding delete_loop
  delete_loop-IsTurn c cs n s = elim (Bool-cases (ltb_ℤ (pos n) excess)) [
    | inr f ↦ rw f (enough f refl)
    | inl t ↦ elim (Bool-cases (too_young now min_idle c)) [
      | inl y ↦ rw (t, y) (passes t y refl)
      | inr o ↦
          rw (t, o)
            (tried-IsTurn c cs n s (try c s) (try c s).0.1 (try c s).0.0 refl refl refl t o
              (delete_managed_pool_gc_candidate-IsTry hash_ten (attempts (key_of c)) (key_of c) s))
    ]
  ]
