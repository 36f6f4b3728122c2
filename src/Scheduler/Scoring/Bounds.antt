-- ===== src/Scheduler/Scoring/Bounds.antt =====
-- Bounds on the scores of a node.
use agent_env.Base.{ℕ, ◌+◌, ◌-◌, ◌*◌, ◌≤◌, ◌<◌, ◌≡◌, inl, inr, arith, Bool-cases, ltb, ◌/◌}
use agent_env.Base.Int.{
  sub_int64_nonpos, pos, ◌/ℤ◌, ◌≤ℤ◌, add_int64-pos, sub_int64-pos, mul_int64-pos,
}
use agent_env.Scheduler.Scoring.{compose, clamp_score, free_resource_score}
use native.Mathlib.Nat.{
  div-eq_of_lt, mul-div_cancel_left, le-div_iff_mul-le, div-lt_iff_lt-mul, mul-le-mul_right,
}

div_mono : (a b k : ℕ) → 0 < k → a ≤ b → a / k ≤ b / k
div_mono a b k h l =
    (le-div_iff_mul-le h).1
      (omega (arith, (le-div_iff_mul-le {k = k} {x = a / k} {y = a} h).0 (omega arith)))

mean_bounds :
    (p q r a b c low high : ℕ)
    → 0 < p + q + r
    → (low ≤ a) × (low ≤ b) × (low ≤ c)
    → (a ≤ high) × (b ≤ high) × (c ≤ high)
    → (low ≤ (a * p + b * q + c * r) / (p + q + r)) × ((a * p + b * q + c * r) / (p + q + r) ≤ high)
mean_bounds p q r a b c low high h l u = (
  (le-div_iff_mul-le h).1
      (omega (arith, mul-le-mul_right p l.0, mul-le-mul_right q l.1, mul-le-mul_right r l.2)),
  omega (
    arith,
    (div-lt_iff_lt-mul {k = p + q + r} {x = a * p + b * q + c * r} {y = high + 1} h).1
        (omega (arith, mul-le-mul_right p u.0, mul-le-mul_right q u.1, mul-le-mul_right r u.2)),
  ),
)

abbrev IsSmall : ℕ → Type 0
IsSmall w = w ≤ 1000000000000

compose_mean :
    (p q r a b c : ℕ)
    → 0 < p + q + r
    → IsSmall p × IsSmall q × IsSmall r
    → (a ≤ 100) × (b ≤ 100) × (c ≤ 100)
    → compose (pos p, pos q, pos r) (pos a) (pos b) (pos c)
      ≡ pos ((a * p + b * q + c * r) / (p + q + r))
unfolding compose clamp_score ◌/ℤ◌
compose_mean p q r a b c h s u =
    let up = mul-le-mul_right p u.0 in
    let uq = mul-le-mul_right q u.1 in
    let ur = mul-le-mul_right r u.2 in
    rw
      (
        mul_int64-pos a p (omega arith),
        mul_int64-pos b q (omega arith),
        mul_int64-pos c r (omega arith),
        add_int64-pos p q (omega arith),
        add_int64-pos (p + q) r (omega arith),
        add_int64-pos (a * p) (b * q) (omega arith),
        add_int64-pos (a * p + b * q) (c * r) (omega arith),
      )
      (ground (arith, h, (mean_bounds p q r a b c 0 100 h (omega arith) u).1))

-- The composed score of a node lies between any bounds of its image, spread and load scores, where
-- the weights are not all 0 and at most 10^12 and the scores are at most 100.
pub compose_between :
    (p q r a b c low high : ℕ)
    → 0 < p + q + r
    → IsSmall p × IsSmall q × IsSmall r
    → (low ≤ a) × (low ≤ b) × (low ≤ c)
    → (a ≤ high) × (b ≤ high) × (c ≤ high)
    → high ≤ 100
    → (pos low ≤ℤ compose (pos p, pos q, pos r) (pos a) (pos b) (pos c))
      × (compose (pos p, pos q, pos r) (pos a) (pos b) (pos c) ≤ℤ pos high)
compose_between p q r a b c low high h s l u k =
    rw (compose_mean p q r a b c h s (omega arith))
      (ground (arith, mean_bounds p q r a b c low high h l u))

-- What is free of a capacity, in hundredths of it.
free_resource_score_form :
    (used capacity : ℕ)
    → 0 < capacity
    → IsSmall capacity
    → IsSmall used
    → free_resource_score (pos used) (pos capacity) ≡ pos ((capacity - used) * 100 / capacity)
unfolding free_resource_score clamp_score ◌/ℤ◌
free_resource_score_form used capacity h k l = elim (Bool-cases (ltb used capacity)) [
  | inl t ↦ rw (sub_int64-pos capacity used (ground arith) (omega arith)) (
      rw (mul_int64-pos (capacity - used) 100 (omega arith)) (
        ground (
          arith,
          t,
          mul-div_cancel_left 100 {n = capacity} h,
          div_mono ((capacity - used) * 100) (capacity * 100) capacity h (omega arith),
        )))
  | inr f ↦ rw (sub_int64_nonpos capacity used (ground arith) (omega arith)) (
      rw (div-eq_of_lt {n = (capacity - used) * 100} {m = capacity} (ground arith))
        (ground (arith, h)))
]

-- Of two nodes of one capacity, at most 10^12, the one with more of it in use never scores higher
-- for its free resources.
pub free_resource_score_mono :
    (used more capacity : ℕ)
    → used ≤ more
    → 0 < capacity
    → IsSmall capacity
    → IsSmall more
    → free_resource_score (pos more) (pos capacity) ≤ℤ free_resource_score (pos used) (pos capacity)
free_resource_score_mono used more capacity h z k l =
    rw
      (
        free_resource_score_form used capacity z k (omega arith),
        free_resource_score_form more capacity z k l,
      )
      (ground (
        arith,
        div_mono ((capacity - more) * 100) ((capacity - used) * 100) capacity z (omega arith),
      ))
