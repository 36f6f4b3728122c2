-- ===== src/RateLimit/Cleanup.antt =====
-- The table of visitors under the cleanup: which entries a tick leaves.
use agent_env.Base.{
  ℕ, ◌-◌, ◌<◌, ◌≡◌, refl, Bool, false, ◌&&◌, ◌||◌, if◌then◌else◌, Option, none, some, [], ◌∷◌, ◌==◌,
  arith, ltb,
}
use agent_env.Base.Text.{Text, Text_eq}
use agent_env.Base.Table.{Table, lookup, delete, IsMap, delete-IsMap, lookup-delete}
use agent_env.RateLimit.{Visitor, RateLimiter, max_idle, is_stale, sweep, cleanup}

abbrev some_stale : ℕ → Text → Table Text Visitor → Bool
some_stale now b [] = false
some_stale now b ((ip, v) ∷ rest) = ip == b && is_stale now v || some_stale now b rest

lookup-sweep :
    (now : ℕ) (b : Text) (rest m : Table Text Visitor)
    → lookup b (sweep now rest m) ≡ (if some_stale now b rest then none else lookup b m)
unfolding sweep
lookup-sweep now b [] m = refl
lookup-sweep now b ((ip, v) ∷ rest) m = ground (
  arith,
  Text_eq.equals_iff ip b,
  lookup-delete ip b m,
  lookup-sweep now b rest m,
  lookup-sweep now b rest (delete ip m),
)

sweep-IsMap : (now : ℕ) (rest m : Table Text Visitor) → IsMap m → IsMap (sweep now rest m)
unfolding sweep
sweep-IsMap now [] m h = h
sweep-IsMap now ((ip, v) ∷ rest) m h =
    ground (arith, delete-IsMap ip m h, sweep-IsMap now rest m, sweep-IsMap now rest (delete ip m))

abbrev stale_at : ℕ → Option Visitor → Bool
stale_at now none = false
stale_at now (some v) = is_stale now v

some_stale-lookup :
    (now : ℕ) (b : Text) (m : Table Text Visitor)
    → IsMap m
    → some_stale now b m ≡ stale_at now (lookup b m)
unfolding lookup
some_stale-lookup now b [] h = refl
some_stale-lookup now b ((ip, v) ∷ m) h =
    ground (arith, Text_eq.equals_iff ip b, some_stale-lookup now b m h.1)

-- Each caller has one visitor, with a limiter of its own in the store.
pub record IsSeparate {L R : Type 0} (rl : RateLimiter L R) : Type 0 where
  pub is_map : IsMap rl.visitors
  pub known : (b : Text) (v : Visitor) → lookup b rl.visitors ≡ some v → v.limiter < rl.next
  pub apart :
      (a b : Text) (v w : Visitor)
      → lookup a rl.visitors ≡ some v
      → lookup b rl.visitors ≡ some w
      → v.limiter ≡ w.limiter
      → a ≡ b

-- What the rate limiter has for a caller: the limiter, and when it was last used.
abbrev pub own_at : {L : Type 0} → (ℕ → L) → Option Visitor → Option (L × ℕ)
own_at limiters none = none
own_at limiters (some v) = some (limiters v.limiter, v.last_seen)

abbrev pub own_tick : {L : Type 0} → ℕ → Option (L × ℕ) → Option (L × ℕ)
own_tick now none = none
own_tick now (some (l, seen)) = if ltb max_idle (now - seen) then none else some (l, seen)

own_tick_lem :
    {L : Type 0} (now : ℕ) (limiters : ℕ → L) (o : Option Visitor)
    → own_at limiters (if stale_at now o then none else o) ≡ own_tick now (own_at limiters o)
unfolding is_stale
own_tick_lem now limiters none = refl
own_tick_lem now limiters (some v) = ground arith

module _ {L R : Type 0} where
  pub cleanup-IsSeparate :
      (now : ℕ) (rl : RateLimiter L R) → IsSeparate rl → IsSeparate (cleanup now rl)
  unfolding cleanup
  cleanup-IsSeparate now rl h = record {
    is_map = sweep-IsMap now rl.visitors rl.visitors (h.is_map);
    known = λ b v e. ground (arith, e, lookup-sweep now b rl.visitors rl.visitors, h.known b v);
    apart = λ a b v w e f q. ground (
      arith,
      e,
      f,
      q,
      lookup-sweep now a rl.visitors rl.visitors,
      lookup-sweep now b rl.visitors rl.visitors,
      h.apart a b v w,
    );
  }

  pub cleanup_own :
      (now : ℕ) (b : Text) (rl : RateLimiter L R)
      → IsSeparate rl
      → own_at rl.limiters (lookup b (cleanup now rl).visitors)
        ≡ own_tick now (own_at rl.limiters (lookup b rl.visitors))
  unfolding cleanup
  cleanup_own now b rl h =
      rw
        (lookup-sweep now b rl.visitors rl.visitors, some_stale-lookup now b rl.visitors (h.is_map))
        (own_tick_lem now rl.limiters (lookup b rl.visitors))
