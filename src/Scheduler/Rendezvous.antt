-- ===== src/Scheduler/Rendezvous.antt =====
-- Highest-random-weight hashing: ComputeTopK of pkg/scheduler/rendezvous.go. The hash, SHA-256 cut to
-- 64 bits, is a parameter: `weigh image node` is hrwScore.
pub mod Stability
use agent_env.Base.{
  ℕ, zero, suc, ◌+◌, ◌-◌, ◌*◌, ◌%◌, ◌≤◌, ◌<◌, ◌≡◌, ◌≢◌, refl, sym, ap, ap₂, subst, ◌∙◌, Bool, true,
  false, not, ◌&&◌, ◌||◌, if◌then◌else◌, Option, none, some, List, [], ◌∷◌, ◌++◌, map, ◌==◌, get_or,
  select, inl, inr, ◌⊎◌, ◌↔◌, length, arith, Bool-cases, Option-cases, In, All, All-In, eqb, ltb,
  leb, is_some, take,
}
use agent_env.Base.Text.{Text, text_lt}
use agent_env.Base.Sort.{sort}

pub record Scored : Type 0 where
  pub name : Text
  pub score : ℕ

-- The `less` of the sort: higher scores first, then by name.
unfoldable pub outranks : Scored → Scored → Bool
outranks a b = if not (eqb a.score b.score) then ltb b.score a.score else text_lt a.name b.name

unfoldable pub scored : (Text → Text → ℕ) → Text → Text → Scored
scored weigh image node = record { name = node; score = weigh image node }

-- The names of the first k; the source cuts k to the number of nodes, as `take` does.
unfoldable pub compute_top_k : (Text → Text → ℕ) → Text → List Text → ℕ → List Text
unfolding scored outranks
compute_top_k weigh image nodes k =
    map (λ (s : Scored). s.name) (take k (sort outranks (map (scored weigh image) nodes)))
