-- ===== src/Session/Operations/Once.antt =====
-- An operation is started once.
use agent_env.Base.{ℕ, ◌≡◌, false, if◌then◌else◌, some, ◌==◌, arith}
use agent_env.Base.Text.{Text, Text_eq}
use agent_env.Session.Operations.{
  Operation, SessionOperations, nth, joined, conflicting, join_operation, get_or_start_found,
  IsReached, no_operations,
}
use agent_env.Session.Operations.Consistency.{is_retired, no_operations-IsConsistent}
use agent_env.Session.Operations.Runs.{reached-IsConsistent}

-- After any calls, ends of work and timers of a session, a call with the id of an operation that its
-- timer has not deleted starts no work and changes nothing: it joins that operation if its request
-- hashes to the same, and is a conflict otherwise. So at most one operation of an id is kept.
pub get_or_start_found_once :
    (s : SessionOperations) (ref : ℕ) (op : Operation) (session_id hash : Text) (now : ℕ)
    → IsReached no_operations s
    → nth ref s.heap ≡ some op
    → is_retired op.phase ≡ false
    → get_or_start_found session_id op.id hash now s
      ≡ ((if op.request_hash == hash then joined ref else conflicting), s)
unfolding get_or_start_found join_operation
get_or_start_found_once s ref op session_id hash now r h l =
    let c = reached-IsConsistent r no_operations-IsConsistent in
    rw (c.live ref op h l, get_or_start_found) (rw (h, join_operation) (ground arith))
