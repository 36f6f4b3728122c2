-- ===== src/Base/Orders.antt =====
-- The strict orders of texts and integers, as `sort` asks for them.
use agent_env.Base.Tests.{Bool-cases, ltb}
use agent_env.Base.Int.{ltb_ℤ}
use agent_env.Base.Text.{Text, text_lt, text_lt_irrefl, text_lt_trans, text_lt_total}
use agent_env.Base.Sort.{IsOrder}
use mathlib.Core.Path.{◌≡◌}
use mathlib.Core.Bool.{false}
use native.Mathlib.Omega.{arith}

text_lt_cotrans : (a b c : Text) → text_lt b a ≡ false → text_lt c b ≡ false → text_lt c a ≡ false
text_lt_cotrans a b c h k = ground (
  arith,
  Bool-cases (text_lt c a),
  Bool-cases (text_lt a b),
  Bool-cases (text_lt b c),
  text_lt_trans c a b,
  text_lt_trans b c a,
  text_lt_total a b,
  text_lt_total b c,
  text_lt_irrefl c,
)

pub text_lt-IsOrder : IsOrder text_lt
text_lt-IsOrder = record {
  irrefl = text_lt_irrefl;
  trans = text_lt_trans;
  cotrans = text_lt_cotrans;
}

-- Larger integers first.
pub ltb_ℤ_flip-IsOrder : IsOrder (λ a b. ltb_ℤ b a)
ltb_ℤ_flip-IsOrder = record {
  irrefl = λ a. ground arith;
  trans = λ a b c h k. ground arith;
  cotrans = λ a b c h k. ground arith;
}

-- Smaller numbers first.
pub ltb-IsOrder : IsOrder ltb
ltb-IsOrder = record {
  irrefl = λ a. ground arith;
  trans = λ a b c h k. ground arith;
  cotrans = λ a b c h k. ground arith;
}

-- Smaller integers first.
pub ltb_ℤ-IsOrder : IsOrder ltb_ℤ
ltb_ℤ-IsOrder = record {
  irrefl = λ a. ground arith;
  trans = λ a b c h k. ground arith;
  cotrans = λ a b c h k. ground arith;
}
