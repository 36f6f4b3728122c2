-- ===== src/Session/Tests/Operations.antt =====
-- One operation that is started, joined and finished.
use agent_env.Base.{◌≡◌, refl, ap, subst, if◌then◌else◌, none, some, [], ◌∷◌, ◌==◌}
use agent_env.Base.Text.{Text_eq, codes}
use agent_env.Session.Operations.{
  Work, running, Operation, SessionOperations, nth, joined, conflicting, started,
  get_or_start_found, IsStep, IsReached, no_operations,
}
use agent_env.Session.Operations.Once.{get_or_start_found_once}

abbrev op : Operation
op = record {
  id = codes "op";
  session_id = codes "s1";
  request_hash = codes "h";
  started_at = 5;
  phase = running;
}

abbrev one : SessionOperations
one = record { heap = op ∷ []; table = (codes "op", 0) ∷ [] }

abbrev work : Work
work = record { result = some (codes "{}"); error = none }

first_call :
    get_or_start_found (codes "s1") (codes "op") (codes "h") 5 no_operations ≡ (started 0, one)
unfolding get_or_start_found
first_call = refl

one-IsReached : IsReached no_operations one
one-IsReached = subst (IsReached no_operations) (ap (λ r. r.1) first_call) (
    IsReached.after IsReached.here
      (IsStep.calls (codes "s1") (codes "op") (codes "h") 5 no_operations))

get_or_start_found_once_example :
    get_or_start_found (codes "s1") (codes "op") (codes "other") 9 one
    ≡ ((if codes "h" == codes "other" then joined 0 else conflicting), one)
unfolding nth
get_or_start_found_once_example =
    get_or_start_found_once one 0 op (codes "s1") (codes "other") 9 one-IsReached refl refl
