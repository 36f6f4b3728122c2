-- ===== src/Session/Store/Calls/Settled.antt =====
-- Calls of Set and Delete whose steps interleave, while no session is written in place.
use agent_env.Base.{◌≡◌, ◌≢◌, refl, sym, ap, subst, ◌∙◌, ◌==◌, inl, inr, arith, Bool-cases, ==_refl}
use agent_env.Base.Text.{Text, Text_eq}
use agent_env.Base.Table.{lookup}
use agent_env.Base.Sets.{contains}
use agent_env.Session.Store.{Heap, new_memory_store, get}
use agent_env.Session.Store.Calls.{
  Goal, idle, proceed, Shared, write, nothing_shared, begin, advance, IsCallStep, IsCallRun,
}
use agent_env.Session.Store.Calls.Own.{IsFiledAt, IsAt, proceed-IsAt}
use agent_env.Session.Store.Calls.Others.{proceed-IsKept, kept-IsAt}

module _ (heap : Heap) where
  abbrev IsSound : Shared → Type 0
  IsSound s = (id : Text) → IsAt heap id s.store (s.latest id) (s.calls id)

  begin-IsSound :
      (id : Text) (g : Goal) (s : Shared) → s.calls id ≡ idle → IsSound s → IsSound (begin id g s)
  unfolding begin
  begin-IsSound id g s e h other = elim (Bool-cases (id == other)) [
    | inr f ↦ rw f (h other)
    | inl t ↦
        let q = (Text_eq.equals_iff id other).0 t in
        rw t (
          refl,
          (subst (IsAt heap other s.store (s.latest other)) (ap s.calls (sym q) ∙ e) (h other)).1,
        )
  ]

  advance-IsSound : (id : Text) (s : Shared) → IsSound s → IsSound (advance heap id s)
  unfolding advance
  advance-IsSound id s h other = elim (Bool-cases (id == other)) [
    | inl t ↦
        subst
          (λ x.
            IsAt heap x (proceed heap id (s.calls id) s.store).1 (s.latest x)
              (write id ((proceed heap id (s.calls id) s.store).0) s.calls x))
          ((Text_eq.equals_iff id other).0 t)
          (rw (==_refl id) (proceed-IsAt heap id s.store (s.latest id) (s.calls id) (h id)))
    | inr f ↦
        let apart : other ≢ id = λ q. ground (arith, f, q, Text_eq.equals_iff id other) in
        rw f (
          kept-IsAt heap other s.store _ (proceed-IsKept other id apart heap (s.calls id) s.store)
            (s.latest other) (s.calls other) (h other))
  ]

  nothing-IsSound : IsSound nothing_shared
  unfolding nothing_shared new_memory_store lookup contains
  nothing-IsSound id =
      (refl, record { by_experiment = λ v. refl; by_profile = λ v. refl; by_status = λ v. refl })

  run-IsSound : {s : Shared} → IsCallRun heap s → IsSound s
  run-IsSound IsCallRun.here = nothing-IsSound
  run-IsSound (IsCallRun.after r (IsCallStep.begins id g s e)) =
      begin-IsSound id g s e (run-IsSound r)
  run-IsSound (IsCallRun.after r (IsCallStep.advances id s)) = advance-IsSound id s (run-IsSound r)

  -- While no session is written in place, and however the steps of the calls of Set and Delete
  -- interleave, one call at a time for an id: an id without a call under way has in the store what
  -- its latest call set, or nothing after a Delete or no call, and the three indexes list it under
  -- exactly the experiment, the profile and the status of that session, and under no other value.
  pub calls_settle :
      (s : Shared) (id : Text)
      → IsCallRun heap s
      → s.calls id ≡ idle
      → (get id s.store ≡ s.latest id) × IsFiledAt heap id s.store
  unfolding get
  calls_settle s id r e = subst (IsAt heap id s.store (s.latest id)) e (run-IsSound r id)
