-- ===== src/Session/Operations/Heap.antt =====
-- Places of the heap of operations.
use agent_env.Base.{
  zero, suc, ℕ, List, [], ◌∷◌, ◌++◌, some, ◌≡◌, ◌≢◌, ap, sym, refl, subst, inl, inr, ◌⊎◌, length,
  eqb, eqb_iff, Bool-cases, ◌∙◌,
}
use agent_env.Session.Operations.{Operation, nth, set_nth}

pub nth-snoc :
    (n : ℕ) (ops : List Operation) (op new : Operation)
    → nth n ops ≡ some op
    → nth n (ops ++ new ∷ []) ≡ some op
unfolding nth
nth-snoc n [] op new h = absurd (cc h)
nth-snoc zero (x ∷ xs) op new h = h
nth-snoc (suc n) (x ∷ xs) op new h = nth-snoc n xs op new h

pub nth_last :
    (ops : List Operation) (new : Operation) → nth (length ops) (ops ++ new ∷ []) ≡ some new
unfolding nth
nth_last [] new = refl
nth_last (x ∷ xs) new = nth_last xs new

pub nth-of_snoc :
    (n : ℕ) (ops : List Operation) (op new : Operation)
    → nth n (ops ++ new ∷ []) ≡ some op
    → (nth n ops ≡ some op) ⊎ ((n ≡ length ops) × (op ≡ new))
unfolding nth
nth-of_snoc zero [] op new h = inr (refl, cc h)
nth-of_snoc (suc n) [] op new h = absurd (cc h)
nth-of_snoc zero (x ∷ xs) op new h = inl h
nth-of_snoc (suc n) (x ∷ xs) op new h = elim (nth-of_snoc n xs op new h) [
  | inl k ↦ inl k
  | inr (e, k) ↦ inr (ap suc e, k)
]

pub nth-set_nth :
    (n : ℕ) (ops : List Operation) (op new : Operation)
    → nth n ops ≡ some op
    → nth n (set_nth n new ops) ≡ some new
unfolding nth set_nth
nth-set_nth n [] op new h = absurd (cc h)
nth-set_nth zero (x ∷ xs) op new h = refl
nth-set_nth (suc n) (x ∷ xs) op new h = nth-set_nth n xs op new h

pub nth-set_nth_other :
    (n m : ℕ) (ops : List Operation) (new : Operation)
    → n ≢ m
    → nth n (set_nth m new ops) ≡ nth n ops
unfolding nth set_nth
nth-set_nth_other n m [] new h = refl
nth-set_nth_other zero zero (x ∷ xs) new h = absurd (h refl)
nth-set_nth_other zero (suc m) (x ∷ xs) new h = refl
nth-set_nth_other (suc n) zero (x ∷ xs) new h = refl
nth-set_nth_other (suc n) (suc m) (x ∷ xs) new h = nth-set_nth_other n m xs new (λ e. h (ap suc e))

-- What is found after a write: the new operation at its place, or what stood there.
pub nth-of_set_nth :
    (n m : ℕ) (ops : List Operation) (op old new : Operation)
    → nth m ops ≡ some old
    → nth n (set_nth m new ops) ≡ some op
    → ((n ≡ m) × (op ≡ new)) ⊎ ((n ≢ m) × (nth n ops ≡ some op))
nth-of_set_nth n m ops op old new h k = elim (Bool-cases (eqb n m)) [
  | inl t ↦
      let e = (eqb_iff n m).0 t in
      inl (
        e,
        some-inj (
            sym (subst (λ i. nth i (set_nth m new ops) ≡ some op) e k)
            ∙ nth-set_nth m ops old new h),
      )
  | inr f ↦
      let d : n ≢ m = λ e. absurd (cc (f, (eqb_iff n m).1 e)) in
      inr (d, sym (nth-set_nth_other n m ops new d) ∙ k)
]
  where
    some-inj : {a b : Operation} → some a ≡ some b → a ≡ b
    some-inj e = cc e
