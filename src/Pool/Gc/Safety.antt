-- ===== src/Pool/Gc/Safety.antt =====
-- Which pools a pass of the collector deletes, and how many.
use agent_env.Base.{
  length-append, none, List, ℕ, In, ◌≡◌, length, ◌++◌, false, ◌⊎◌, ◌≤◌, some, ◌∷◌, inl, ◌+◌, [],
  inr, subst, ◌-◌, sym, suc, arith, refl, ap,
}
use agent_env.Base.Text.{Text}
use agent_env.Base.Int.{ℤ, pos}
use agent_env.Kube.{Key}
use agent_env.Pool.Selector.{Result, ok, err}
use agent_env.Pool.Lifecycle.{StopOutcome, stopped, left}
use agent_env.Pool.Gc.{ManagedPoolGcCandidate, GcAttempt, GcState}
use agent_env.Pool.Gc.Attempts.{IsUnused}
use agent_env.Pool.Gc.Pass.{too_young, delete_loop, note_stops}
use agent_env.Pool.Gc.Turns.{Out, key_of, loop, IsTurn, delete_loop-IsTurn}

In-of_snoc : {A : Type 0} (x y : A) (xs : List A) → In x (xs ++ y ∷ []) → In x xs ⊎ (x ≡ y)
In-of_snoc x y [] i = elim i [ inl e ↦ inr e | inr j ↦ elim j [ ] ]
In-of_snoc x y (z ∷ zs) i = elim i [
  | inl e ↦ inl (inl e)
  | inr j ↦ elim (In-of_snoc x y zs j) [ inl k ↦ inl (inr k) | inr e ↦ inr e ]
]

module _ (hash_ten : Text → Text) (attempts : Key → GcAttempt) (now min_idle : ℤ) where
  -- Why the loop may delete a pool.
  abbrev pub IsDue : List ManagedPoolGcCandidate → Key → Type 0
  IsDue cs k =
      (c : ManagedPoolGcCandidate) × In c cs
      × (k ≡ key_of c)
      × (too_young now min_idle c ≡ false)
      × IsUnused (attempts k) k

  later-IsDue :
      (c : ManagedPoolGcCandidate) (cs : List ManagedPoolGcCandidate) (k : Key) (old : List Key)
      → In k old ⊎ IsDue cs k
      → In k old ⊎ IsDue (c ∷ cs) k
  later-IsDue c cs k old (inl i) = inl i
  later-IsDue c cs k old (inr (d, i, e, y, u)) = inr (d, inr i, e, y, u)

  removed-IsDue :
      (c : ManagedPoolGcCandidate) (cs : List ManagedPoolGcCandidate) (k : Key) (s t : GcState)
      → too_young now min_idle c ≡ false
      → IsUnused (attempts (key_of c)) (key_of c)
      → t.deleted_pools ≡ s.deleted_pools ++ key_of c ∷ []
      → In k t.deleted_pools
      → In k s.deleted_pools ⊎ IsDue (c ∷ cs) k
  removed-IsDue c cs k s t y u d i =
      elim (In-of_snoc k (key_of c) s.deleted_pools (subst (In k) d i)) [
        | inl j ↦ inl j
        | inr e ↦ inr (c, inl refl, e, y, subst (λ x. IsUnused (attempts x) x) (sym e) u)
      ]

  pub delete_loop-IsDue :
      (excess : ℤ) (cs : List ManagedPoolGcCandidate) (n : ℕ) (s : GcState) (k : Key)
      → In k (loop hash_ten attempts now min_idle excess cs n s).1.deleted_pools
      → In k s.deleted_pools ⊎ IsDue cs k
  unfolding delete_loop
  delete_loop-IsDue excess [] n s k i = inl i
  delete_loop-IsDue excess (c ∷ cs) n s k i =
      elim (delete_loop-IsTurn hash_ten attempts now min_idle excess c cs n s) [
        | IsTurn.enough f e ↦ inl (subst (λ o. In k o.1.deleted_pools) e i)
        | IsTurn.passes t y e ↦
            later-IsDue c cs k s.deleted_pools
              (delete_loop-IsDue excess cs n s k (subst (λ o. In k o.1.deleted_pools) e i))
        | IsTurn.keeps f e ↦
            later-IsDue c cs k s.deleted_pools
              (delete_loop-IsDue excess cs n s k (subst (λ o. In k o.1.deleted_pools) e i))
        | IsTurn.fails x f e ↦ inl (subst (λ o. In k o.1.deleted_pools) e i)
        | IsTurn.removes l y u t d (inr (x, f, e)) ↦
            removed-IsDue c cs k s t y u d (subst (λ o. In k o.1.deleted_pools) e i)
        | IsTurn.removes l y u t d (inl e) ↦
            elim (delete_loop-IsDue excess cs (suc n) t k
              (subst (λ o. In k o.1.deleted_pools) e i)) [
                | inl j ↦ removed-IsDue c cs k s t y u d j
                | inr (z, j, p, y', u') ↦ inr (z, inr j, p, y', u')
              ]
      ]

  -- The loop deletes no more than what is left of the excess.
  pub length-delete_loop :
      (excess : ℕ) (cs : List ManagedPoolGcCandidate) (n : ℕ) (s : GcState)
      → length (loop hash_ten attempts now min_idle (pos excess) cs n s).1.deleted_pools
        ≤ length s.deleted_pools + (excess - n)
  unfolding delete_loop
  length-delete_loop excess [] n s = omega arith
  length-delete_loop excess (c ∷ cs) n s =
      let size = λ (o : Out). length o.1.deleted_pools in
      elim (delete_loop-IsTurn hash_ten attempts now min_idle (pos excess) c cs n s) [
        | IsTurn.enough f e ↦ omega (arith, ap size e)
        | IsTurn.passes t y e ↦ omega (arith, ap size e, length-delete_loop excess cs n s)
        | IsTurn.keeps f e ↦ omega (arith, ap size e, length-delete_loop excess cs n s)
        | IsTurn.fails x f e ↦ omega (arith, ap size e)
        | IsTurn.removes l y u t d (inr (x, f, e)) ↦
            ground (arith, ap size e, ap length d, length-append s.deleted_pools (key_of c ∷ []))
        | IsTurn.removes l y u t d (inl e) ↦ ground (
          arith,
          ap size e,
          ap length d,
          length-append s.deleted_pools (key_of c ∷ []),
          length-delete_loop excess cs (suc n) t,
        )
      ]

pub note_stops_pools :
    (stops : List (Key × Result StopOutcome)) (s : GcState)
    → (note_stops stops s).deleted_pools ≡ s.deleted_pools
unfolding note_stops
note_stops_pools [] s = refl
note_stops_pools ((key, ok (stopped (some pool))) ∷ rest) s = note_stops_pools rest _
note_stops_pools ((key, ok (stopped none)) ∷ rest) s = note_stops_pools rest s
note_stops_pools ((key, ok left) ∷ rest) s = note_stops_pools rest s
note_stops_pools ((key, err e) ∷ rest) s = note_stops_pools rest s
