-- ===== src/Pool/Selector/Order.antt =====
-- The order by which a pool is chosen.
use agent_env.Base.{◌≡◌, subst, sym, Bool, false, arith, fun_ext}
use agent_env.Base.Int.{ltb_ℤ}
use agent_env.Base.Text.{text_lt, text_lt_total}
use agent_env.Base.Sort.{IsOrder, lex, lex-IsOrder, by-IsOrder}
use agent_env.Base.Orders.{text_lt-IsOrder, ltb_ℤ_flip-IsOrder}
use agent_env.Pool.Snapshot.{PoolSnapshot}
use agent_env.Pool.Selector.{better}

abbrev more_ready : PoolSnapshot → PoolSnapshot → Bool
more_ready a b = ltb_ℤ b.ready_replicas a.ready_replicas

abbrev more_desired : PoolSnapshot → PoolSnapshot → Bool
more_desired a b = ltb_ℤ b.desired_replicas a.desired_replicas

abbrev name_first : PoolSnapshot → PoolSnapshot → Bool
name_first a b = text_lt a.name b.name

-- The first comparison, by warm capacity, never overrules the second.
better-lex : (a b : PoolSnapshot) → better a b ≡ lex more_ready (lex more_desired name_first) a b
unfolding better
better-lex a b = ground arith

lex3-IsOrder : IsOrder (lex more_ready (lex more_desired name_first))
lex3-IsOrder =
    lex-IsOrder _ _ (by-IsOrder (λ (p : PoolSnapshot). p.ready_replicas) _ ltb_ℤ_flip-IsOrder) (
      lex-IsOrder _ _ (by-IsOrder (λ (p : PoolSnapshot). p.desired_replicas) _ ltb_ℤ_flip-IsOrder)
        (by-IsOrder (λ (p : PoolSnapshot). p.name) text_lt text_lt-IsOrder))

pub better-IsOrder : IsOrder better
better-IsOrder = subst IsOrder (sym (fun_ext (λ a. fun_ext (λ b. better-lex a b)))) lex3-IsOrder

-- Pools that the order does not tell apart have one name.
pub better_total : (a b : PoolSnapshot) → better a b ≡ false → better b a ≡ false → a.name ≡ b.name
better_total a b h k = ground (arith, better-lex a b, better-lex b a, text_lt_total a.name b.name)
