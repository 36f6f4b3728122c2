-- ===== src/RateLimit/Requests.antt =====
-- One request on the table of visitors and the store of limiters.
use agent_env.Base.{ℕ, suc, ◌≡◌, refl, if◌then◌else◌, Option, none, some, ◌==◌, arith, eqb, ◌≢◌}
use agent_env.Base.Text.{Text, Text_eq}
use agent_env.Base.Table.{lookup, insert, lookup-insert, insert-IsMap}
use agent_env.RateLimit.{Visitor, RateLimiter, Bucket, remote_ip, get_visitor, allow_at, middleware}
use agent_env.RateLimit.Cleanup.{IsSeparate}

module _ {L R : Type 0} (lib : Bucket L R) (split_host_port : Text → Text) where
  abbrev pub place : RateLimiter L R → Option Visitor → ℕ
  place rl none = rl.next
  place rl (some v) = v.limiter

  abbrev next_after : RateLimiter L R → Option Visitor → ℕ
  next_after rl none = suc rl.next
  next_after rl (some v) = rl.next

  abbrev pub used : RateLimiter L R → Option Visitor → L
  used rl none = lib.new_limiter rl.limit
  used rl (some v) = rl.limiters v.limiter

  -- The middleware on the visitor that it finds.
  pub record IsRequest (rl after : RateLimiter L R) (ip : Text) (now : ℕ) (o : Option Visitor)
      : Type 0 where
    visitors_after :
        after.visitors ≡ insert ip (record { limiter = place rl o; last_seen = now }) rl.visitors
    limiters_after :
        (q : ℕ)
        → after.limiters q
          ≡ (if eqb q (place rl o) then (lib.allow now (used rl o)).1 else rl.limiters q)
    next_is : after.next ≡ next_after rl o
    pub limit_is : after.limit ≡ rl.limit

  pub middleware-IsRequest :
      (now : ℕ) (addr : Text) (rl : RateLimiter L R) (o : Option Visitor)
      → lookup (remote_ip split_host_port addr) rl.visitors ≡ o
      → IsRequest rl
          ((middleware lib split_host_port now addr rl).1)
          (remote_ip split_host_port addr)
          now
          o
  unfolding middleware get_visitor allow_at
  middleware-IsRequest now addr rl none e = record {
    visitors_after = rw (e, get_visitor) refl;
    limiters_after = λ q. rw (e, get_visitor) (ground arith);
    next_is = rw (e, get_visitor) refl;
    limit_is = rw (e, get_visitor) refl;
  }
  middleware-IsRequest now addr rl (some v) e = record {
    visitors_after = rw (e, get_visitor) refl;
    limiters_after = λ q. rw (e, get_visitor) refl;
    next_is = rw (e, get_visitor) refl;
    limit_is = rw (e, get_visitor) refl;
  }

  module _ (rl after : RateLimiter L R) (ip : Text) (now : ℕ) where
    pub lookup_requested :
        (o : Option Visitor)
        → IsRequest rl after ip now o
        → (b : Text)
        → lookup b after.visitors ≡ (
            if ip == b
            then some (record { limiter = place rl o; last_seen = now })
            else lookup b rl.visitors)
    lookup_requested o r b = rw (r.visitors_after) (lookup-insert ip b _ rl.visitors)

    pub requested-IsSeparate :
        (o : Option Visitor)
        → lookup ip rl.visitors ≡ o
        → IsRequest rl after ip now o
        → IsSeparate rl
        → IsSeparate after
    requested-IsSeparate none e r h = record {
      is_map = rw (r.visitors_after) (insert-IsMap ip _ rl.visitors (h.is_map));
      known = λ b v f. ground (arith, f, r.next_is, lookup_requested none r b, h.known b v);
      apart = λ a b v w f g q. ground (
        arith,
        f,
        g,
        q,
        Text_eq.equals_iff ip a,
        Text_eq.equals_iff ip b,
        lookup_requested none r a,
        lookup_requested none r b,
        h.known a v,
        h.known b w,
        h.apart a b v w,
      );
    }
    requested-IsSeparate (some u) e r h = record {
      is_map = rw (r.visitors_after) (insert-IsMap ip _ rl.visitors (h.is_map));
      known = λ b v f.
          ground (arith, e, f, r.next_is, lookup_requested (some u) r b, h.known b v, h.known ip u);
      apart = λ a b v w f g q. ground (
        arith,
        e,
        f,
        g,
        q,
        Text_eq.equals_iff ip a,
        Text_eq.equals_iff ip b,
        lookup_requested (some u) r a,
        lookup_requested (some u) r b,
        h.apart a b v w,
        h.apart ip b u w,
        h.apart a ip v u,
      );
    }

    -- A request uses its caller's limiter and no other.
    pub limiter_other :
        (o : Option Visitor) (b : Text) (w : Visitor)
        → lookup ip rl.visitors ≡ o
        → IsRequest rl after ip now o
        → IsSeparate rl
        → lookup b rl.visitors ≡ some w
        → ip ≢ b
        → after.limiters w.limiter ≡ rl.limiters w.limiter
    limiter_other none b w e r h f n = ground (arith, r.limiters_after w.limiter, h.known b w f)
    limiter_other (some u) b w e r h f n =
        ground (arith, n, r.limiters_after w.limiter, h.apart ip b u w e f)

    pub limiter_own :
        (o : Option Visitor)
        → IsRequest rl after ip now o
        → after.limiters (place rl o) ≡ (lib.allow now (used rl o)).1
    limiter_own o r = ground (arith, r.limiters_after (place rl o))
