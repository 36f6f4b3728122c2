-- ===== src/Session/Operations.antt =====
-- Operations that are started once and polled: pkg/gateway/operations.go. An operation is a place in
-- a heap, as the program keeps pointers. The mutex and the channel that is closed last make each of
-- a call, the end of the work and the timer's deletion one step; the timer runs ten minutes after
-- the work, so after the channel is closed.
pub mod Heap
pub mod Consistency
pub mod Runs
pub mod Once
pub mod Results
use agent_env.Base.{
  ℕ, zero, suc, ◌+◌, ◌-◌, ◌*◌, ◌%◌, ◌≤◌, ◌<◌, ◌≡◌, ◌≢◌, refl, sym, ap, ap₂, subst, ◌∙◌, Bool, true,
  false, not, ◌&&◌, ◌||◌, if◌then◌else◌, Option, none, some, List, [], ◌∷◌, ◌++◌, map, ◌==◌, get_or,
  select, inl, inr, ◌⊎◌, ◌↔◌, length, arith, Bool-cases, Option-cases, In, All, All-In, eqb, ltb,
  leb, is_some,
}
use agent_env.Base.Text.{Text, Text_eq, codes, is_empty}
use agent_env.Base.Table.{Table, lookup, insert, delete}

-- What the work returned: the JSON text of its result, if there is one, and its error.
pub record Work : Type 0 where
  pub result : Option Text
  pub error : Option Text

-- Running, done with its entry kept, and done with its entry deleted; with the time of the end.
pub data Phase : Type 0 where
  running : Phase
  finished retired : ℕ → Work → Phase

pub record Operation : Type 0 where
  pub id : Text
  pub session_id : Text
  pub request_hash : Text
  pub started_at : ℕ
  pub phase : Phase

-- A session's operations by their ids, each a place in the heap.
pub record SessionOperations : Type 0 where
  pub heap : List Operation
  pub table : Table Text ℕ

unfoldable pub nth : ℕ → List Operation → Option Operation
nth n [] = none
nth zero (op ∷ ops) = some op
nth (suc n) (op ∷ ops) = nth n ops

unfoldable pub set_nth : ℕ → Operation → List Operation → List Operation
set_nth n new [] = []
set_nth zero new (op ∷ ops) = new ∷ ops
set_nth (suc n) new (op ∷ ops) = op ∷ set_nth n new ops

-- What getOrStartOperation answers: an operation that was there, or one whose work it started.
pub data Answer : Type 0 where
  session_missing conflicting : Answer
  joined started : ℕ → Answer

unfoldable pub start_operation :
    Text → Text → Text → ℕ → SessionOperations → Answer × SessionOperations
unfolding insert
start_operation session_id id hash now s =
    let op : Operation = record {
      id = id;
      session_id = session_id;
      request_hash = hash;
      started_at = now;
      phase = running;
    } in
    let ref = length s.heap in
    (started ref, record { heap = s.heap ++ op ∷ []; table = insert id ref s.table })

unfoldable pub join_operation : ℕ → Option Operation → Text → Answer
join_operation ref none hash = conflicting
join_operation ref (some op) hash =
    if not (op.request_hash == hash) then conflicting else joined ref

unfoldable pub get_or_start_found :
    Text → Text → Text → ℕ → SessionOperations → Answer × SessionOperations
unfolding start_operation join_operation nth lookup
get_or_start_found session_id id hash now s = elim (lookup id s.table) [
  | none ↦ start_operation session_id id hash now s
  | some ref ↦ (join_operation ref (nth ref s.heap) hash, s)
]

-- getOrStartOperation, of the session that the store has, if it has it.
unfoldable pub get_or_start_operation :
    Text → Text → Text → ℕ → Option SessionOperations → Answer × Option SessionOperations
unfolding get_or_start_found
get_or_start_operation session_id id hash now none = (session_missing, none)
get_or_start_operation session_id id hash now (some s) =
    let r = get_or_start_found session_id id hash now s in (r.0, some r.1)

unfoldable pub end_phase : ℕ → Work → Phase → Phase
end_phase now w running = finished now w
end_phase now w (finished t v) = finished t v
end_phase now w (retired t v) = retired t v

-- The work of an operation returns, once.
unfoldable pub finish_operation : ℕ → ℕ → Work → SessionOperations → SessionOperations
unfolding nth set_nth end_phase
finish_operation ref now w s = elim (nth ref s.heap) [
  | none ↦ s
  | some op ↦ record s {
    heap = set_nth ref (record op { phase = end_phase now w op.phase }) s.heap;
  }
]

-- The timer of an operation that has finished fires, once: it deletes the entry of the id.
unfoldable pub retire_found : ℕ → Operation → Phase → SessionOperations → SessionOperations
unfolding set_nth delete
retire_found ref op running s = s
retire_found ref op (retired t w) s = s
retire_found ref op (finished t w) s = record {
  heap = set_nth ref (record op { phase = retired t w }) s.heap;
  table = delete op.id s.table;
}

unfoldable pub retire_operation : ℕ → SessionOperations → SessionOperations
unfolding nth retire_found
retire_operation ref s = elim (nth ref s.heap) [
  | none ↦ s
  | some op ↦ retire_found ref op op.phase s
]

-- resolveOperation's answer: pending, or what the work returned.
pub data Resolved : Type 0 where
  pending : Resolved
  returned : Option Text → Resolved
  errored : Text → Resolved

unfoldable pub resolve_work : Work → Resolved
resolve_work w = elim (w.error) [ some e ↦ errored e | none ↦ returned w.result ]

unfoldable pub resolve_operation : Phase → Resolved
unfolding resolve_work
resolve_operation running = pending
resolve_operation (finished t w) = resolve_work w
resolve_operation (retired t w) = resolve_work w

pub data Status : Type 0 where
  status_running status_done status_error : Status

pub record OperationInfo : Type 0 where
  pub operation_id : Text
  pub info_session_id : Text
  pub status : Status
  pub result : Option Text
  pub error : Text
  pub info_started_at : ℕ
  pub finished_at : Option ℕ

unfoldable pub end_info : Operation → ℕ → Work → OperationInfo
end_info op at w = record {
  operation_id = op.id;
  info_session_id = op.session_id;
  status = elim (w.error) [ none ↦ status_done | some e ↦ status_error ];
  result = w.result;
  error = get_or w.error [];
  info_started_at = op.started_at;
  finished_at = some at;
}

-- operation.info.
unfoldable pub info : Operation → Phase → OperationInfo
unfolding end_info
info op (finished t w) = end_info op t w
info op (retired t w) = end_info op t w
info op running = record {
  operation_id = op.id;
  info_session_id = op.session_id;
  status = status_running;
  result = none;
  error = [];
  info_started_at = op.started_at;
  finished_at = none;
}

-- One step of a session's operations.
pub data IsStep : SessionOperations → SessionOperations → Type 0 where
  calls :
      (session_id id hash : Text) (now : ℕ) (s : SessionOperations)
      → IsStep s (get_or_start_found session_id id hash now s).1
  finishes :
      (ref now : ℕ) (w : Work) (s : SessionOperations) → IsStep s (finish_operation ref now w s)
  retires : (ref : ℕ) (s : SessionOperations) → IsStep s (retire_operation ref s)

-- The states that steps lead to.
pub data IsReached (s : SessionOperations) : SessionOperations → Type 0 where
  here : IsReached s s
  after : {t u : SessionOperations} → IsReached s t → IsStep t u → IsReached s u

abbrev pub no_operations : SessionOperations
no_operations = record { heap = []; table = [] }
