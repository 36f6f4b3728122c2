-- ===== src/RateLimit/Tests.antt =====
-- Two callers, with a limiter of one token that is never filled again.
use agent_env.Base.{ℕ, zero, suc, ◌-◌, ◌≡◌, refl, Bool, none, List, [], ◌∷◌, ltb}
use agent_env.Base.Text.{Text, codes}
use agent_env.RateLimit.{Bucket, too_many_requests, new_rate_limiter, middleware}
use agent_env.RateLimit.Alone.{
  LimitEvent, requested, ticked, own_answer, own_all, handle_all, handle_all_alone,
}

abbrev bucket : Bucket ℕ ℕ
bucket = record { new_limiter = λ burst. burst; allow = λ now tokens. (ltb 0 tokens, tokens - 1) }

abbrev host : Text → Text
host addr = addr

abbrev events : List LimitEvent
events = requested 1 (codes "a") ∷ requested 2 (codes "b") ∷ ticked 3 ∷ []

handle_all_alone_example :
    (middleware bucket host 4
      (codes "a")
      (handle_all bucket 1 host events (new_rate_limiter 1 1))).0
    ≡ own_answer bucket 1 4 (own_all bucket 1 host (codes "a") events none)
unfolding agent_env.RateLimit.remote_ip
handle_all_alone_example = handle_all_alone bucket 1 host events 4 (codes "a") 1

-- The second request of a caller is refused while the first limiter is kept.
repeated :
    (middleware bucket host 4
      (codes "a")
      (handle_all bucket 1 host events (new_rate_limiter 1 1))).0
    ≡ too_many_requests
unfolding middleware agent_env.Base.Table.lookup agent_env.RateLimit.cleanup new_rate_limiter
    agent_env.Base.Table.insert agent_env.Base.Text.text_eq
repeated = refl
