-- ===== src/Session/Operations/Results.antt =====
-- What the work of an operation returned stays its result.
use agent_env.Base.{ℕ, ◌≡◌, some, none, [], ◌⊎◌}
use agent_env.Base.Text.{Text_eq, Text}
use agent_env.Session.Operations.{
  Work, Phase, running, finished, retired, Operation, SessionOperations, nth, Resolved, returned,
  errored, OperationInfo, status_done, status_error,
}

-- The phase is of work that returned `w`.
abbrev pub IsReturned : Work → Phase → Type 0
IsReturned w running = ⊥
IsReturned w (finished at v) = v ≡ w
IsReturned w (retired at v) = v ≡ w

abbrev Holds : Work → ℕ → SessionOperations → Type 0
Holds w ref s = (op : Operation) × (nth ref s.heap ≡ some op) × IsReturned w op.phase

-- The error of the work, or else its result, is what a poll answers, and what the status reports.
abbrev pub IsOutcome : Work → Resolved → OperationInfo → Type 0
IsOutcome w r i =
    ((w.error ≡ none)
      × (r ≡ returned w.result)
      × (i.status ≡ status_done)
      × (i.result ≡ w.result)
      × (i.error ≡ []))
    ⊎ ((e : Text) × (w.error ≡ some e)
        × (r ≡ errored e)
        × (i.status ≡ status_error)
        × (i.error ≡ e))
