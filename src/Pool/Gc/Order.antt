-- ===== src/Pool/Gc/Order.antt =====
-- How many pools a pass of the collector deletes, and which first.
use agent_env.Base.{
  ◌∙◌, ap, suc, none, take, zero, ◌≡◌, ℕ, true, not, List, map, ◌<◌, ◌++◌, select, false, ◌-◌, ◌∷◌,
  suc, arith, refl, ap, ◌∙◌, [], sym, Option, inr, some, inl, if◌then◌else◌, length, ◌≤◌,
  Bool-cases, ◌+◌,
}
use agent_env.Base.Text.{Text}
use agent_env.Base.Int.{ℤ, pos, ltb_ℤ, sub_int64, sub_int64-pos}
use agent_env.Base.Sort.{sort}
use agent_env.Kube.{Key, WarmPool}
use agent_env.Pool.Selector.{Result, ok, err}
use agent_env.Pool.Gc.{
  ManagedPoolGcCandidate, GcAttempt, GcState, managed_pool_references, gc_candidates,
  collected_before, delete_managed_pool_gc_candidate,
}
use agent_env.Pool.Gc.Pass.{
  too_young, delete_loop, GcConfig, GcWorld, collect_candidates, reconcile_with_references,
  reconcile_managed_pool_gc,
}
use agent_env.Pool.Gc.Turns.{Out, key_of, loop, IsTurn, delete_loop-IsTurn}
use agent_env.Pool.Gc.Safety.{length-delete_loop, note_stops_pools}
use agent_env.Pool.Gc.Promises.{noted}
use agent_env.Pool.Gc.Ranking.{old_enough, too_young-old_enough, AreFirst, take-AreFirst}
use mathlib.Core.List.{append_assoc, append-nil}

-- Every candidate that is tried is deleted, and without an error.
abbrev pub AllSucceed : (Text → Text) → (Key → GcAttempt) → Type 0
AllSucceed hash_ten attempts =
    (k : Key) (s : GcState)
    → (delete_managed_pool_gc_candidate hash_ten (attempts k) k s).0 ≡ (true, none)

module _ (hash_ten : Text → Text) (attempts : Key → GcAttempt) (now min_idle : ℤ)
    (succeed : AllSucceed hash_ten attempts) where
  take-nil : (k : ℕ) → take {A = ManagedPoolGcCandidate} k [] ≡ []
  take-nil zero = refl
  take-nil (suc k) = refl

  abbrev due : ℕ → List ManagedPoolGcCandidate → List Key
  due k cs = map key_of (take k (select (old_enough now min_idle) cs))

  enough :
      (c : ManagedPoolGcCandidate)
      → too_young now min_idle c ≡ false
      → old_enough now min_idle c ≡ true
  enough c y = ground (arith, y, too_young-old_enough now min_idle c)

  too_new :
      (c : ManagedPoolGcCandidate)
      → too_young now min_idle c ≡ true
      → old_enough now min_idle c ≡ false
  too_new c y = ground (arith, y, too_young-old_enough now min_idle c)

  due_next :
      (excess n : ℕ) (c : ManagedPoolGcCandidate) (cs : List ManagedPoolGcCandidate)
      → n < excess
      → too_young now min_idle c ≡ false
      → due (excess - n) (c ∷ cs) ≡ key_of c ∷ due (excess - suc n) cs
  due_next excess n c cs l y =
      let e : excess - n ≡ suc (excess - suc n) = omega arith in rw (enough c y) (rw e refl)

  pub delete_loop_order :
      (excess : ℕ) (cs : List ManagedPoolGcCandidate) (n : ℕ) (s : GcState)
      → (loop hash_ten attempts now min_idle (pos excess) cs n s).1.deleted_pools
        ≡ s.deleted_pools ++ due (excess - n) cs
  unfolding delete_loop
  delete_loop_order excess [] n s =
      sym (append-nil s.deleted_pools)
      ∙ ap (λ x. s.deleted_pools ++ map key_of x) (sym (take-nil (excess - n)))
  delete_loop_order excess (c ∷ cs) n s =
      let log = λ (o : Out). o.1.deleted_pools in
      elim (delete_loop-IsTurn hash_ten attempts now min_idle (pos excess) c cs n s) [
        | IsTurn.enough f e ↦
            let z : excess - n ≡ 0 = ground arith in
            ap log e ∙ rw z (sym (append-nil s.deleted_pools))
        | IsTurn.passes t y e ↦ ap log e ∙ delete_loop_order excess cs n s ∙ rw (too_new c y) refl
        | IsTurn.keeps f e ↦ absurd (cc (f, ap (λ r. r.0) (succeed (key_of c) s)))
        | IsTurn.fails x f e ↦ absurd (cc (f, ap (λ r. r.1) (succeed (key_of c) s)))
        | IsTurn.removes l y u t d (inr (x, f, e)) ↦
            absurd (cc (f, ap (λ r. r.1) (succeed (key_of c) s)))
        | IsTurn.removes l y u t d (inl e) ↦
            ap log e
            ∙ delete_loop_order excess cs (suc n) t
            ∙ ap (λ x. x ++ due (excess - suc n) cs) d
            ∙ append_assoc s.deleted_pools (key_of c ∷ []) (due (excess - suc n) cs)
            ∙ ap (λ x. s.deleted_pools ++ x) (sym (due_next excess n c cs (ground arith) y))
      ]

module _ (parse_time : Text → Option ℤ) (hash_ten : Text → Text) (c : GcConfig) (w : GcWorld)
    (s : GcState) (references : List Key) (pools : List WarmPool) (enabled : c.enabled ≡ true)
    (referred : managed_pool_references c.namespace w.sessions w.claims ≡ ok references)
    (listed : w.stopped_pools ≡ ok pools) where
  abbrev found : List ManagedPoolGcCandidate
  found = gc_candidates parse_time w.now references pools

  pass_lem :
      (answer : Result (List WarmPool))
      → answer ≡ ok pools
      → (elim answer as (λ x. Out) [
        | err e ↦ ((0, some e), noted parse_time hash_ten c w references s)
        | ok ps ↦
            collect_candidates hash_ten c w
              (gc_candidates parse_time w.now references ps)
              (noted parse_time hash_ten c w references s)
      ])
        ≡ collect_candidates hash_ten c w found (noted parse_time hash_ten c w references s)
  pass_lem answer e = rw e refl

  -- What a pass is once it has both of its lists.
  reconciled :
      reconcile_managed_pool_gc parse_time hash_ten c w s
      ≡ collect_candidates hash_ten c w found (noted parse_time hash_ten c w references s)
  unfolding reconcile_managed_pool_gc reconcile_with_references
  reconciled =
      ap (λ b. if not b then ((0, none), s) else pass) enabled
      ∙ ap
          (λ r. elim r as (λ x. Out) [
            | err e ↦ ((0, some e), s)
            | ok rs ↦ reconcile_with_references parse_time hash_ten c w rs s
          ])
          referred
      ∙ pass_lem w.stopped_pools listed
    where
      pass : Out
      pass = elim (managed_pool_references c.namespace w.sessions w.claims) [
        | err e ↦ ((0, some e), s)
        | ok rs ↦ reconcile_with_references parse_time hash_ten c w rs s
      ]

  abbrev collect : List ManagedPoolGcCandidate → GcState → ℤ → Out
  collect cs t most =
      if not (ltb_ℤ most (pos (length cs)))
      then ((0, none), t)
      else loop hash_ten w.attempts w.now c.min_idle_age (sub_int64 (pos (length cs)) most)
          (sort collected_before cs) 0 t

  collect_bound :
      (cs : List ManagedPoolGcCandidate) (t : GcState) (m : ℕ)
      → length cs < 9223372036854775808
      → length (collect cs t (pos m)).1.deleted_pools ≤ length t.deleted_pools + (length cs - m)
  collect_bound cs t m h = elim (Bool-cases (ltb_ℤ (pos m) (pos (length cs)))) [
    | inr f ↦ rw f (omega arith)
    | inl l ↦
        let excess = length cs - m in
        rw (l, sub_int64-pos (length cs) m (ground arith) h)
          (omega (
            arith,
            length-delete_loop hash_ten w.attempts w.now c.min_idle_age excess
                (sort collected_before cs) 0 t,
          ))
  ]

  same : (n : ℕ) → n - 0 ≡ n
  same n = omega arith

  collect_order :
      AllSucceed hash_ten w.attempts
      → (cs : List ManagedPoolGcCandidate) (t : GcState) (m : ℕ) → length cs < 9223372036854775808
      → (collect cs t (pos m)).1.deleted_pools
        ≡ t.deleted_pools
          ++ map key_of (
              take
                (length cs - m)
                (select (old_enough w.now c.min_idle_age) (sort collected_before cs)))
  collect_order succeed cs t m h = elim (Bool-cases (ltb_ℤ (pos m) (pos (length cs)))) [
    | inr f ↦
        let z : length cs - m ≡ 0 = ground arith in rw (f, z) (sym (append-nil t.deleted_pools))
    | inl l ↦
        let excess = length cs - m in
        rw (l, sub_int64-pos (length cs) m (ground arith) h)
          (delete_loop_order hash_ten w.attempts w.now c.min_idle_age succeed excess
              (sort collected_before cs) 0 t
            ∙ ap
                (λ x.
                  t.deleted_pools
                  ++ map key_of (
                      take x (select (old_enough w.now c.min_idle_age) (sort collected_before cs))))
                (same excess))
  ]

  noted_pools : (noted parse_time hash_ten c w references s).deleted_pools ≡ s.deleted_pools
  noted_pools = note_stops_pools _ s

  -- A pass that takes `found` for its candidates deletes at most as many pools as they are more than
  -- the maximum of stopped pools, whatever its clock and the API server say.
  pub reconcile_managed_pool_gc-IsBounded :
      (m : ℕ)
      → c.max_stopped ≡ pos m
      → length found < 9223372036854775808
      → length (reconcile_managed_pool_gc parse_time hash_ten c w s).1.deleted_pools
        ≤ length s.deleted_pools + (length found - m)
  unfolding collect_candidates
  reconcile_managed_pool_gc-IsBounded m e h =
      let n = noted parse_time hash_ten c w references s in
      omega (
        arith,
        ap (λ o. length o.1.deleted_pools) reconciled,
        ap (λ z. length (collect found n z).1.deleted_pools) e,
        collect_bound found n m h,
        ap length noted_pools,
      )

  -- Where every candidate that is tried is deleted without an error, a pass deletes, of the
  -- candidates that are old enough, the least recently used: the first in the order of the last use,
  -- then of the creation, then of the name, in this order, and as many as the candidates exceed the
  -- maximum by, or all that are old enough.
  pub reconcile_managed_pool_gc_order :
      (m : ℕ)
      → c.max_stopped ≡ pos m
      → length found < 9223372036854775808
      → AllSucceed hash_ten w.attempts
      → (chosen : List ManagedPoolGcCandidate) × ((reconcile_managed_pool_gc parse_time hash_ten c w
            s).1.deleted_pools
          ≡ s.deleted_pools ++ map key_of chosen)
        × AreFirst (old_enough w.now c.min_idle_age) (length found - m) found chosen
  unfolding collect_candidates
  reconcile_managed_pool_gc_order m e h succeed =
      let n = noted parse_time hash_ten c w references s in
      let old = old_enough w.now c.min_idle_age in
      let chosen = take (length found - m) (select old (sort collected_before found)) in
      (
        chosen,
        ap (λ o. o.1.deleted_pools) reconciled
            ∙ ap (λ z. (collect found n z).1.deleted_pools) e
            ∙ collect_order succeed found n m h
            ∙ ap (λ x. x ++ map key_of chosen) noted_pools,
        take-AreFirst old (length found - m) found,
      )
