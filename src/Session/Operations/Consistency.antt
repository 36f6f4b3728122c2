-- ===== src/Session/Operations/Consistency.antt =====
-- The table of a session's operations agrees with its heap through all steps.
use agent_env.Base.{
  ℕ, ◌≡◌, refl, sym, ap, subst, ◌∙◌, Bool, true, false, none, some, [], ◌∷◌, ◌++◌, ◌==◌, inl, inr,
  length, Bool-cases, Option-cases, eqb, ==_refl, eqb_iff,
}
use agent_env.Base.Text.{Text, Text_eq}
use agent_env.Base.Table.{Table, lookup, insert, delete, lookup-insert, lookup-delete}
use agent_env.Session.Operations.{
  Work, Phase, running, finished, retired, Operation, SessionOperations, nth, set_nth,
  start_operation, end_phase, finish_operation, no_operations,
}
use agent_env.Session.Operations.Heap.{
  nth-snoc, nth_last, nth-of_snoc, nth-set_nth, nth-set_nth_other, nth-of_set_nth,
}

abbrev pub is_retired : Phase → Bool
is_retired running = false
is_retired (finished t w) = false
is_retired (retired t w) = true

-- The entries of the table are the operations of the heap that have not been retired, each under its
-- own id.
pub record IsConsistent (s : SessionOperations) : Type 0 where
  pub entries :
      (id : Text) (ref : ℕ)
      → lookup id s.table ≡ some ref
      → (op : Operation) × (nth ref s.heap ≡ some op) × (op.id ≡ id) × (is_retired op.phase ≡ false)
  pub live :
      (ref : ℕ) (op : Operation)
      → nth ref s.heap ≡ some op
      → is_retired op.phase ≡ false
      → lookup op.id s.table ≡ some ref

pub no_operations-IsConsistent : IsConsistent no_operations
unfolding lookup nth
no_operations-IsConsistent = record {
  entries = λ id ref e. absurd (cc e);
  live = λ ref op e f. absurd (cc e);
}

inserted : (id : Text) (ref : ℕ) (t : Table Text ℕ) → lookup id (insert id ref t) ≡ some ref
inserted id ref t = rw (lookup-insert id id ref t) (rw (==_refl id) refl)

other_inserted :
    (j id : Text) (ref : ℕ) (t : Table Text ℕ)
    → (id == j) ≡ false
    → lookup j (insert id ref t) ≡ lookup j t
other_inserted j id ref t f = rw (lookup-insert id j ref t) (rw f refl)

pub other_deleted :
    (j id : Text) (t : Table Text ℕ) → (id == j) ≡ false → lookup j (delete id t) ≡ lookup j t
other_deleted j id t f = rw (lookup-delete id j t) (rw f refl)

pub deleted_none : (id : Text) (t : Table Text ℕ) → lookup id (delete id t) ≡ none
deleted_none id t = rw (lookup-delete id id t) (rw (==_refl id) refl)

free_differs :
    (id j : Text) (ref : ℕ) (t : Table Text ℕ)
    → lookup id t ≡ none
    → lookup j t ≡ some ref
    → (id == j) ≡ false
free_differs id j ref t n e = elim (Bool-cases (id == j)) [
  | inl b ↦
      absurd (cc (n, subst (λ k. lookup k t ≡ some ref) (sym ((Text_eq.equals_iff id j).0 b)) e))
  | inr f ↦ f
]

pub start-IsConsistent :
    (session_id id hash : Text) (now : ℕ) (s : SessionOperations)
    → lookup id s.table ≡ none
    → IsConsistent s
    → IsConsistent (start_operation session_id id hash now s).1
unfolding start_operation
start-IsConsistent session_id id hash now s free c =
    let new : Operation = record {
      id = id;
      session_id = session_id;
      request_hash = hash;
      started_at = now;
      phase = running;
    } in
    record {
      entries = λ j ref e. elim (Bool-cases (id == j)) [
        | inl t ↦
            let same = rw t at (sym (lookup-insert id j (length s.heap) s.table) ∙ e) in
            (
              new,
              subst (λ n. nth n (s.heap ++ new ∷ []) ≡ some new) (cc same) (nth_last s.heap new),
              (Text_eq.equals_iff id j).0 t,
              refl,
            )
        | inr f ↦
            let old = rw f at (sym (lookup-insert id j (length s.heap) s.table) ∙ e) in
            let (op, n, i, l) = c.entries j ref old in (op, nth-snoc ref s.heap op new n, i, l)
      ];
      live = λ ref op e l. elim (nth-of_snoc ref s.heap op new e) [
        | inl n ↦
            other_inserted op.id id (length s.heap) s.table
              (free_differs id op.id ref s.table free (c.live ref op n l))
            ∙ c.live ref op n l
        | inr (r, o) ↦
            subst (λ x. lookup x.id (insert id (length s.heap) s.table) ≡ some ref) (sym o)
              (inserted id (length s.heap) s.table ∙ ap some (sym r))
      ];
    }

-- An operation is written over with one of the same id that is retired if the old one was.
replaced-IsConsistent :
    (ref : ℕ) (old new : Operation) (s : SessionOperations)
    → nth ref s.heap ≡ some old
    → new.id ≡ old.id
    → is_retired new.phase ≡ is_retired old.phase
    → IsConsistent s
    → IsConsistent (record s { heap = set_nth ref new s.heap })
replaced-IsConsistent ref old new s h i p c = record {
  entries = λ id r e.
      let (op, n, k, l) = c.entries id r e in
      elim (Bool-cases (eqb r ref)) [
        | inl t ↦
            let x = (eqb_iff r ref).0 t in
            let same : op ≡ old = cc (sym n ∙ subst (λ m. nth m s.heap ≡ some old) (sym x) h) in
            (
              new,
              subst (λ m. nth m (set_nth ref new s.heap) ≡ some new) (sym x)
                  (nth-set_nth ref s.heap old new h),
              i ∙ sym (ap (λ o. o.id) same) ∙ k,
              p ∙ sym (ap (λ o. is_retired o.phase) same) ∙ l,
            )
        | inr f ↦ (
          op,
          nth-set_nth_other r ref s.heap new (λ x. absurd (cc (f, (eqb_iff r ref).1 x))) ∙ n,
          k,
          l,
        )
      ];
  live = λ r op e l. elim (nth-of_set_nth r ref s.heap op old new h e) [
    | inl (x, o) ↦
        let at_rest = sym p ∙ ap (λ z. is_retired z.phase) (sym o) ∙ l in
        subst (λ z. lookup z.id s.table ≡ some r) (sym o)
          (subst (λ z. lookup z s.table ≡ some r) (sym i)
            (c.live ref old h at_rest ∙ ap some (sym x)))
    | inr (x, n) ↦ c.live r op n l
  ];
}

end_phase_retired : (now : ℕ) (w : Work) (p : Phase) → is_retired (end_phase now w p) ≡ is_retired p
unfolding end_phase
end_phase_retired now w running = refl
end_phase_retired now w (finished t v) = refl
end_phase_retired now w (retired t v) = refl

pub finish-IsConsistent :
    (ref now : ℕ) (w : Work) (s : SessionOperations)
    → IsConsistent s
    → IsConsistent (finish_operation ref now w s)
unfolding finish_operation
finish-IsConsistent ref now w s c = elim (Option-cases (nth ref s.heap)) [
  | inl e ↦ rw (e, finish_operation) c
  | inr (op, e) ↦
      rw (e, finish_operation)
        (replaced-IsConsistent ref op (record op { phase = end_phase now w op.phase }) s e refl
          (end_phase_retired now w op.phase) c)
]
