-- ===== src/Pool/Snapshot/Laws.antt =====
-- The default profile of a pool.
use agent_env.Base.{◌≡◌, false, arith}
use agent_env.Base.Text.{Text, is_empty, trim_space}
use agent_env.Pool.Snapshot.{normalize_profile}

-- A profile is never empty after normalisation.
pub normalize_profile_nonempty : (p : Text) → is_empty (normalize_profile p) ≡ false
unfolding normalize_profile trim_space
normalize_profile_nonempty p = ground arith
