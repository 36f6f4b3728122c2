-- ===== src/RateLimit.antt =====
-- The rate limits of callers: pkg/gateway/ratelimit.go. The token bucket of golang.org/x/time/rate
-- (its state, NewLimiter and Allow) and SplitHostPort are arguments. A pointer to a limiter is a
-- place in a store. The mutex makes a lookup of a visitor and a tick of the cleanup one step each.
pub mod Alone
pub mod Cleanup
pub mod Requests
mod Tests
use agent_env.Base.{
  ℕ, zero, suc, ◌-◌, Bool, true, false, if◌then◌else◌, Option, none, some, List, [], ◌∷◌, eqb, ltb,
}
use agent_env.Base.Text.{Text, Text_eq, is_empty}
use agent_env.Base.Table.{Table, lookup, insert, delete}

pub record Visitor : Type 0 where
  pub limiter : ℕ
  pub last_seen : ℕ

-- The limiters are in the store below `next`.
pub record RateLimiter (L R : Type 0) : Type 0 where
  pub visitors : Table Text Visitor
  pub limiters : ℕ → L
  pub next : ℕ
  pub limit : R

-- The library's limiter: NewLimiter of a rate and a burst, and Allow at a time.
pub record Bucket (L R : Type 0) : Type 0 where
  pub new_limiter : R → L
  pub allow : ℕ → L → Bool × L

-- The answer of the middleware: 429, or the next handler's.
pub data Admission : Type 0 where
  too_many_requests served : Admission

abbrev pub write : {L : Type 0} → ℕ → L → (ℕ → L) → ℕ → L
write at l limiters p = if eqb p at then l else limiters p

-- Durations are in nanoseconds.
abbrev pub max_idle : ℕ
max_idle = 300000000000

unfoldable pub is_stale : ℕ → Visitor → Bool
is_stale now v = ltb max_idle (now - v.last_seen)

-- The loop of a tick, over the entries that the range visits.
unfoldable pub sweep : ℕ → Table Text Visitor → Table Text Visitor → Table Text Visitor
unfolding is_stale
sweep now [] visitors = visitors
sweep now ((ip, v) ∷ rest) visitors =
    sweep now rest (if is_stale now v then delete ip visitors else visitors)

unfoldable pub remote_ip : (Text → Text) → Text → Text
remote_ip split_host_port addr = let ip = split_host_port addr in if is_empty ip then addr else ip

module _ {L R : Type 0} where
  unfoldable pub new_rate_limiter : L → R → RateLimiter L R
  new_rate_limiter l limit = record { visitors = []; limiters = λ p. l; next = 0; limit = limit }

  -- The place of the visitor's limiter, new or old.
  unfoldable pub get_visitor : Bucket L R → Text → ℕ → RateLimiter L R → ℕ × RateLimiter L R
  get_visitor lib ip now rl = elim (lookup ip rl.visitors) [
    | none ↦ (
      rl.next,
      record {
        visitors = insert ip (record { limiter = rl.next; last_seen = now }) rl.visitors;
        limiters = write rl.next (lib.new_limiter rl.limit) rl.limiters;
        next = suc rl.next;
        limit = rl.limit;
      },
    )
    | some v ↦ (
      v.limiter,
      record {
        visitors = insert ip (record { limiter = v.limiter; last_seen = now }) rl.visitors;
        limiters = rl.limiters;
        next = rl.next;
        limit = rl.limit;
      },
    )
  ]

  unfoldable pub cleanup : ℕ → RateLimiter L R → RateLimiter L R
  unfolding sweep
  cleanup now rl = record {
    visitors = sweep now rl.visitors rl.visitors;
    limiters = rl.limiters;
    next = rl.next;
    limit = rl.limit;
  }

  -- Allow on the limiter at a place.
  unfoldable pub allow_at : Bucket L R → ℕ → ℕ → RateLimiter L R → Bool × RateLimiter L R
  allow_at lib now p rl =
      let (ok, l) = lib.allow now (rl.limiters p) in
      (
        ok,
        record {
          visitors = rl.visitors;
          limiters = write p l rl.limiters;
          next = rl.next;
          limit = rl.limit;
        },
      )

  -- Middleware on a caller's address.
  unfoldable pub middleware :
      Bucket L R → (Text → Text) → ℕ → Text → RateLimiter L R → Admission × RateLimiter L R
  unfolding remote_ip get_visitor allow_at
  middleware lib split_host_port now addr rl =
      let (p, found) = get_visitor lib (remote_ip split_host_port addr) now rl in
      let (ok, after) = allow_at lib now p found in
      (if ok then served else too_many_requests, after)
