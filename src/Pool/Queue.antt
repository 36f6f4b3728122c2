-- ===== src/Pool/Queue.antt =====
-- The admission queue of pkg/gateway/pool_policy.go: how many requests wait for each pool. The
-- mutex makes each method one step; an absent map reads as an empty one.
pub mod Depth
use agent_env.Base.{
  ℕ, zero, suc, ◌+◌, ◌-◌, ◌*◌, ◌%◌, ◌≤◌, ◌<◌, ◌≡◌, ◌≢◌, refl, sym, ap, ap₂, subst, ◌∙◌, Bool, true,
  false, not, ◌&&◌, ◌||◌, if◌then◌else◌, Option, none, some, List, [], ◌∷◌, ◌++◌, map, ◌==◌, get_or,
  select, inl, inr, ◌⊎◌, ◌↔◌, length, arith, Bool-cases, Option-cases, In, All, All-In, eqb, ltb,
  leb, is_some,
}
use agent_env.Kube.{Key, Key_eq}
use agent_env.Pool.Index.{count_of, count_up}
use agent_env.Base.Int.{ℤ, pos, negsuc, ltb_ℤ, ◌+ℤ◌, wrap_int32, dec_int32}
use agent_env.Base.Text.{is_empty}
use agent_env.Base.Table.{Table, insert, delete}

unfoldable pub increment_admission_queue : Key → Table Key ℤ → Table Key ℤ
unfolding count_up
increment_admission_queue k depth = if is_empty k.name then depth else count_up k depth

unfoldable pub decrement_admission_queue : Key → Table Key ℤ → Table Key ℤ
unfolding count_of
decrement_admission_queue k depth =
    let next = dec_int32 (count_of k depth) in
    if is_empty k.name
    then depth
    else if ltb_ℤ (pos 0) next
    then insert k next depth
    else delete k depth
