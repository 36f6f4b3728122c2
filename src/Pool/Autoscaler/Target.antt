-- ===== src/Pool/Autoscaler/Target.antt =====
-- The size that the autoscaler asks for.
use agent_env.Base.{ℕ, ◌+◌, ◌≤◌, ◌<◌, ◌≡◌, ◌⊎◌, arith}
use agent_env.Pool.Autoscaler.{AutoscalerConfig, non_negative, pool_autoscale_target, within_limits}
use agent_env.Base.Int.{ℤ, pos, ◌≤ℤ◌, ◌<ℤ◌, ◌+ℤ◌, wrap_int32, pos_part}

non_negative_lem : (a : ℤ) → non_negative a ≡ pos (pos_part a)
non_negative_lem a = ground arith

within_limits_bounds :
    (low high : ℕ) (t : ℤ)
    → (pos 0 ≤ℤ within_limits (pos low) (pos high) t)
      × (0 < high → within_limits (pos low) (pos high) t ≤ℤ pos high)
      × ((low ≤ high) ⊎ (high ≡ 0) → pos low ≤ℤ within_limits (pos low) (pos high) t)
unfolding within_limits
within_limits_bounds low high t = ground arith

within_limits_mono :
    (low high s t : ℕ)
    → s ≤ t
    → within_limits (pos low) (pos high) (pos s) ≤ℤ within_limits (pos low) (pos high) (pos t)
unfolding within_limits
within_limits_mono low high s t h = ground arith

-- The target within its limits, over natural numbers.
target_of_parts :
    (c : AutoscalerConfig) (q : ℤ)
    → pool_autoscale_target c q
      ≡ within_limits
          (pos (pos_part c.min_replicas))
          (pos (pos_part c.max_replicas))
          (wrap_int32 (pos (pos_part q) +ℤ pos (pos_part c.buffer)))
unfolding pool_autoscale_target
target_of_parts c q = simp (
  non_negative_lem c.min_replicas,
  non_negative_lem c.max_replicas,
  non_negative_lem c.buffer,
  non_negative_lem q,
)

-- The target is never negative; it is at most the maximum where one is set, and at least the
-- minimum where the maximum allows it. This holds for every int32 demand, also where the sum wraps.
pub pool_autoscale_target_bounds :
    (c : AutoscalerConfig) (queued : ℤ)
    → (pos 0 ≤ℤ pool_autoscale_target c queued)
      × (pos 0 <ℤ c.max_replicas → pool_autoscale_target c queued ≤ℤ c.max_replicas)
      × ((c.min_replicas ≤ℤ c.max_replicas) ⊎ (c.max_replicas ≤ℤ pos 0)
          → c.min_replicas ≤ℤ pool_autoscale_target c queued)
pool_autoscale_target_bounds c queued = rw (target_of_parts c queued) (
    ground (
      arith,
      within_limits_bounds (pos_part c.min_replicas) (pos_part c.max_replicas)
          (wrap_int32 (pos (pos_part queued) +ℤ pos (pos_part c.buffer))),
    ))

sum_fits : (q b : ℕ) → q + b < 2147483648 → wrap_int32 (pos q +ℤ pos b) ≡ pos (q + b)
unfolding wrap_int32 ◌+ℤ◌
sum_fits q b h = ground arith

-- Where demand and buffer fit an int32 together, more queued requests never ask for fewer replicas.
pub pool_autoscale_target_mono :
    (c : AutoscalerConfig) (q r : ℕ)
    → q ≤ r
    → r + pos_part c.buffer < 2147483648
    → pool_autoscale_target c (pos q) ≤ℤ pool_autoscale_target c (pos r)
pool_autoscale_target_mono c q r h m =
    rw
      (
        target_of_parts c (pos q),
        target_of_parts c (pos r),
        sum_fits q (pos_part c.buffer) (omega arith),
        sum_fits r (pos_part c.buffer) m,
      )
      (within_limits_mono _ _ (q + pos_part c.buffer) (r + pos_part c.buffer) (omega arith))

-- Past the end of an int32 the sum of two int32 turns negative: with no maximum set, such a demand
-- asks for the minimum alone.
pub pool_autoscale_target_overflow :
    (c : AutoscalerConfig) (q : ℕ)
    → q < 2147483648
    → pos_part c.buffer < 2147483648
    → 2147483648 ≤ q + pos_part c.buffer
    → c.max_replicas ≤ℤ pos 0
    → pool_autoscale_target c (pos q) ≡ pos (pos_part c.min_replicas)
unfolding within_limits wrap_int32 ◌+ℤ◌
pool_autoscale_target_overflow c q h k o m = rw (target_of_parts c (pos q)) (ground arith)
