-- ===== src/Session/Operations/Runs.antt =====
-- The table and the heap of a session's operations over runs of steps.
use agent_env.Base.{
  ℕ, ◌≡◌, ◌≢◌, refl, sym, ap, subst, ◌∙◌, false, none, some, ◌==◌, inl, inr, Bool-cases,
  Option-cases,
}
use agent_env.Base.Text.{Text, Text_eq}
use agent_env.Base.Table.{lookup, delete}
use agent_env.Session.Operations.{
  Work, Phase, running, finished, retired, Operation, SessionOperations, nth, set_nth,
  get_or_start_found, retire_found, retire_operation, IsStep, IsReached,
}
use agent_env.Session.Operations.Heap.{nth-set_nth_other, nth-of_set_nth}
use agent_env.Session.Operations.Consistency.{
  is_retired, IsConsistent, finish-IsConsistent, start-IsConsistent, deleted_none, other_deleted,
}

retired-IsConsistent :
    (ref at : ℕ) (w : Work) (old : Operation) (s : SessionOperations)
    → nth ref s.heap ≡ some old
    → is_retired old.phase ≡ false
    → IsConsistent s
    → IsConsistent (record {
      heap = set_nth ref (record old { phase = retired at w }) s.heap;
      table = delete old.id s.table;
    })
retired-IsConsistent ref at w old s h l c =
    let new : Operation = record old { phase = retired at w } in
    let there = c.live ref old h l in
    record {
      entries = λ j r e. elim (Bool-cases (old.id == j)) [
        | inl t ↦
            let same = (Text_eq.equals_iff old.id j).0 t in
            absurd (
              cc (
                e,
                subst (λ k. lookup k (delete old.id s.table) ≡ none) same
                    (deleted_none old.id s.table),
              ))
        | inr f ↦
            let before = sym (other_deleted j old.id s.table f) ∙ e in
            let (op, n, i, m) = c.entries j r before in
            let apart : r ≢ ref = λ x.
              let same : op ≡ old = cc (sym n ∙ subst (λ k. nth k s.heap ≡ some old) (sym x) h) in
              absurd (cc (f, (Text_eq.equals_iff old.id j).1 (sym (ap (λ o. o.id) same) ∙ i))) in
            (op, nth-set_nth_other r ref s.heap new apart ∙ n, i, m)
      ];
      live = λ r op e m. elim (nth-of_set_nth r ref s.heap op old new h e) [
        | inl (x, o) ↦ absurd (cc (m, ap (λ z. is_retired z.phase) o))
        | inr (x, n) ↦ elim (Bool-cases (old.id == op.id)) [
          | inr f ↦ other_deleted op.id old.id s.table f ∙ c.live r op n m
          | inl t ↦
              let same = (Text_eq.equals_iff old.id op.id).0 t in
              absurd (
                x (
                  cc (sym (c.live r op n m) ∙ subst (λ k. lookup k s.table ≡ some ref) same there)))
        ]
      ];
    }

retire_found-IsConsistent :
    (ref : ℕ) (op : Operation) (p : Phase) (s : SessionOperations)
    → nth ref s.heap ≡ some op
    → op.phase ≡ p
    → IsConsistent s
    → IsConsistent (retire_found ref op p s)
unfolding retire_found
retire_found-IsConsistent ref op running s h e c = c
retire_found-IsConsistent ref op (retired at w) s h e c = c
retire_found-IsConsistent ref op (finished at w) s h e c =
    retired-IsConsistent ref at w op s h (ap is_retired e) c

retire-IsConsistent :
    (ref : ℕ) (s : SessionOperations) → IsConsistent s → IsConsistent (retire_operation ref s)
unfolding retire_operation
retire-IsConsistent ref s c = elim (Option-cases (nth ref s.heap)) [
  | inl e ↦ rw (e, retire_operation) c
  | inr (op, e) ↦ rw (e, retire_operation) (retire_found-IsConsistent ref op op.phase s e refl c)
]

call-IsConsistent :
    (session_id id hash : Text) (now : ℕ) (s : SessionOperations)
    → IsConsistent s
    → IsConsistent (get_or_start_found session_id id hash now s).1
unfolding get_or_start_found
call-IsConsistent session_id id hash now s c = elim (Option-cases (lookup id s.table)) [
  | inl e ↦ rw (e, get_or_start_found) (start-IsConsistent session_id id hash now s e c)
  | inr (ref, e) ↦ rw (e, get_or_start_found) c
]

step-IsConsistent : {s t : SessionOperations} → IsStep s t → IsConsistent s → IsConsistent t
step-IsConsistent (IsStep.calls session_id id hash now s) c =
    call-IsConsistent session_id id hash now s c
step-IsConsistent (IsStep.finishes ref now w s) c = finish-IsConsistent ref now w s c
step-IsConsistent (IsStep.retires ref s) c = retire-IsConsistent ref s c

pub reached-IsConsistent :
    {s t : SessionOperations} → IsReached s t → IsConsistent s → IsConsistent t
reached-IsConsistent IsReached.here c = c
reached-IsConsistent (IsReached.after r x) c = step-IsConsistent x (reached-IsConsistent r c)
