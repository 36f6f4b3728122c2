-- ===== src/RateLimit/Alone.antt =====
-- The limits of one caller among the requests of all.
use agent_env.Base.{
  ℕ, ◌≡◌, refl, if◌then◌else◌, Option, none, some, List, [], ◌∷◌, ◌==◌, arith, ◌≢◌, Bool-cases, sym,
  inl, ◌∙◌, inr,
}
use agent_env.Base.Text.{Text, Text_eq}
use agent_env.Base.Table.{lookup}
use agent_env.RateLimit.{
  Visitor, RateLimiter, Bucket, Admission, too_many_requests, served, remote_ip, get_visitor,
  cleanup, allow_at, middleware, new_rate_limiter,
}
use agent_env.RateLimit.Cleanup.{IsSeparate, own_at, own_tick, cleanup-IsSeparate, cleanup_own}
use agent_env.RateLimit.Requests.{
  place, used, IsRequest, middleware-IsRequest, lookup_requested, requested-IsSeparate,
  limiter_other, limiter_own,
}

-- A request of a caller's address, or a tick of the cleanup, at a time.
pub data LimitEvent : Type 0 where
  requested : ℕ → Text → LimitEvent
  ticked : ℕ → LimitEvent

-- A caller's limiter as if there were no other caller.
module _ {L R : Type 0} (lib : Bucket L R) (limit : R) where
  abbrev own_limiter : Option (L × ℕ) → L
  own_limiter none = lib.new_limiter limit
  own_limiter (some (l, seen)) = l

  abbrev own_request : ℕ → Option (L × ℕ) → Option (L × ℕ)
  own_request now own = some ((lib.allow now (own_limiter own)).1, now)

  abbrev pub own_answer : ℕ → Option (L × ℕ) → Admission
  own_answer now own = if (lib.allow now (own_limiter own)).0 then served else too_many_requests

  module _ (split_host_port : Text → Text) where
    abbrev pub handle_event : LimitEvent → RateLimiter L R → RateLimiter L R
    handle_event (requested now addr) rl = (middleware lib split_host_port now addr rl).1
    handle_event (ticked now) rl = cleanup now rl

    abbrev pub handle_all : List LimitEvent → RateLimiter L R → RateLimiter L R
    handle_all [] rl = rl
    handle_all (e ∷ es) rl = handle_all es (handle_event e rl)

    abbrev own_step : Text → LimitEvent → Option (L × ℕ) → Option (L × ℕ)
    own_step b (requested now addr) own =
        if remote_ip split_host_port addr == b then own_request now own else own
    own_step b (ticked now) own = own_tick now own

    abbrev pub own_all : Text → List LimitEvent → Option (L × ℕ) → Option (L × ℕ)
    own_all b [] own = own
    own_all b (e ∷ es) own = own_all b es (own_step b e own)

    module _ (rl after : RateLimiter L R) (ip : Text) (now : ℕ) where
      used-own :
          (o : Option Visitor)
          → rl.limit ≡ limit
          → used lib split_host_port rl o ≡ own_limiter (own_at rl.limiters o)
      used-own none e = rw e refl
      used-own (some v) e = refl

      own_shown :
          (b : Text) (o s : Option Visitor)
          → rl.limit ≡ limit
          → lookup ip rl.visitors ≡ o
          → lookup b rl.visitors ≡ s
          → IsRequest lib split_host_port rl after ip now o
          → IsSeparate rl
          → own_at after.limiters (
              if ip == b
              then some (record { limiter = place lib split_host_port rl o; last_seen = now })
              else s)
            ≡ (if ip == b then own_request now (own_at rl.limiters s) else own_at rl.limiters s)
      own_shown b o s l e f r h = elim (Bool-cases (ip == b)) [
        | inl t ↦ ground (
          arith,
          t,
          e,
          f,
          Text_eq.equals_iff ip b,
          limiter_own lib split_host_port rl after ip now o r,
          used-own o l,
        )
        | inr t ↦ rw t (own_kept s f (λ q. ground (arith, t, q, Text_eq.equals_iff ip b)))
      ]
        where
          own_kept :
              (s : Option Visitor)
              → lookup b rl.visitors ≡ s
              → ip ≢ b
              → own_at after.limiters s ≡ own_at rl.limiters s
          own_kept none f n = refl
          own_kept (some w) f n =
              rw (limiter_other lib split_host_port rl after ip now o b w e r h f n) refl

      own_requested :
          (b : Text) (o : Option Visitor)
          → rl.limit ≡ limit
          → lookup ip rl.visitors ≡ o
          → IsRequest lib split_host_port rl after ip now o
          → IsSeparate rl
          → own_at after.limiters (lookup b after.visitors) ≡ (
              if ip == b
              then own_request now (own_at rl.limiters (lookup b rl.visitors))
              else own_at rl.limiters (lookup b rl.visitors))
      own_requested b o l e r h =
          rw (lookup_requested lib split_host_port rl after ip now o r b)
            (own_shown b o (lookup b rl.visitors) l e refl r h)

    handle_event-IsSeparate :
        (e : LimitEvent) (rl : RateLimiter L R) → IsSeparate rl → IsSeparate (handle_event e rl)
    handle_event-IsSeparate (requested now addr) rl h =
        requested-IsSeparate lib split_host_port rl _ (remote_ip split_host_port addr) now _ refl
          (middleware-IsRequest lib split_host_port now addr rl _ refl) h
    handle_event-IsSeparate (ticked now) rl h = cleanup-IsSeparate now rl h

    handle_event_limit :
        (e : LimitEvent) (rl : RateLimiter L R) → (handle_event e rl).limit ≡ rl.limit
    unfolding cleanup
    handle_event_limit (requested now addr) rl =
        (middleware-IsRequest lib split_host_port now addr rl _ refl).limit_is
    handle_event_limit (ticked now) rl = refl

    handle_event_own :
        (e : LimitEvent) (b : Text) (rl : RateLimiter L R)
        → rl.limit ≡ limit
        → IsSeparate rl
        → own_at (handle_event e rl).limiters (lookup b (handle_event e rl).visitors)
          ≡ own_step b e (own_at rl.limiters (lookup b rl.visitors))
    unfolding cleanup
    handle_event_own (requested now addr) b rl l h =
        own_requested rl _ (remote_ip split_host_port addr) now b _ l refl
          (middleware-IsRequest lib split_host_port now addr rl _ refl) h
    handle_event_own (ticked now) b rl l h = cleanup_own now b rl h

    middleware_answer :
        (now : ℕ) (addr : Text) (rl : RateLimiter L R) (o : Option Visitor)
        → rl.limit ≡ limit
        → lookup (remote_ip split_host_port addr) rl.visitors ≡ o
        → (middleware lib split_host_port now addr rl).0 ≡ own_answer now (own_at rl.limiters o)
    unfolding middleware get_visitor allow_at
    middleware_answer now addr rl none l e = rw (e, get_visitor, ← l) (ground arith)
    middleware_answer now addr rl (some v) l e = rw (e, get_visitor) refl

    answer_alone :
        (es : List LimitEvent) (now : ℕ) (addr : Text) (rl : RateLimiter L R)
        → rl.limit ≡ limit
        → IsSeparate rl
        → (middleware lib split_host_port now addr (handle_all es rl)).0
          ≡ own_answer now (
              own_all
                (remote_ip split_host_port addr)
                es
                (own_at rl.limiters (lookup (remote_ip split_host_port addr) rl.visitors)))
    answer_alone [] now addr rl l h = middleware_answer now addr rl _ l refl
    answer_alone (e ∷ es) now addr rl l h =
        rw (sym (handle_event_own e (remote_ip split_host_port addr) rl l h)) (
          answer_alone es now addr (handle_event e rl) (handle_event_limit e rl ∙ l)
            (handle_event-IsSeparate e rl h))

    new_rate_limiter-IsSeparate : (l : L) → IsSeparate (new_rate_limiter l limit)
    unfolding new_rate_limiter lookup
    new_rate_limiter-IsSeparate l = record {
      is_map = tt;
      known = λ b v e. cc;
      apart = λ a b v w e f q. cc;
    }

    -- After any requests of all callers and any ticks of the cleanup, a request is answered as by
    -- a limiter that only its own caller's requests have used, and that is new after a tick more
    -- than five minutes behind the last of them.
    pub handle_all_alone :
        (es : List LimitEvent) (now : ℕ) (addr : Text) (l : L)
        → (middleware lib split_host_port now addr (handle_all es (new_rate_limiter l limit))).0
          ≡ own_answer now (own_all (remote_ip split_host_port addr) es none)
    unfolding new_rate_limiter lookup
    handle_all_alone es now addr l =
        answer_alone es now addr (new_rate_limiter l limit) refl (new_rate_limiter-IsSeparate l)
