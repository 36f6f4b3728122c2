-- ===== src/Session/Tests.antt =====
-- MemoryStore with one session that is active and then suspended in place, and a history that is
-- truncated.
mod Interleaving
mod Listing
mod Operations
use agent_env.Base.{◌≡◌, ◌≢◌, refl, true, some, arith, [], List, ◌∷◌}
use agent_env.Base.Text.{Text_eq, codes, text_eq, Text}
use agent_env.Base.Table.{lookup}
use agent_env.Base.Sets.{contains}
use agent_env.Session.History.{StepRecord, new_step_history}
use agent_env.Session.History.Order.{
  IsIncreasing, Command, adds, truncates, apply, apply_all, AreInRange, apply_all-IsIncreasing,
}
use agent_env.Base.Int.{ℤ, pos}
use agent_env.Session.Store.{
  Heap, MemoryStore, new_memory_store, set, delete_session, filed_status, find_by_status,
}
use agent_env.Session.Store.Filing.{
  IsFiled, new_memory_store-IsFiled, set-IsFiled, IsForgotten, delete_session-IsForgotten,
}
use agent_env.Session.Store.Stale.{delete_session_stale}

abbrev active : Heap
active p = record {
  experiment_id = codes "exp";
  profile = codes "default";
  status = codes "active";
}

abbrev suspended : Heap
suspended p = record {
  experiment_id = codes "exp";
  profile = codes "default";
  status = codes "suspended";
}

abbrev one_session : MemoryStore
one_session = set active (codes "s1") (some 1) new_memory_store

one_session-IsFiled : IsFiled active one_session
one_session-IsFiled =
    set-IsFiled active (codes "s1") (some 1) new_memory_store (new_memory_store-IsFiled active)

delete_session-IsForgotten_example :
    IsForgotten (codes "s1") one_session (delete_session active (codes "s1") one_session)
delete_session-IsForgotten_example =
    delete_session-IsForgotten active (codes "s1") one_session one_session-IsFiled

one_there : lookup (codes "s1") one_session.sessions ≡ some (some 1)
unfolding set new_memory_store text_eq
one_there = refl

statuses_differ : filed_status (suspended 1) ≢ filed_status (active 1)
unfolding filed_status
statuses_differ e = absurd (ground (arith, e))

delete_session_stale_example :
    contains
      (codes "s1")
      (find_by_status (filed_status (active 1)) (delete_session suspended (codes "s1") one_session))
    ≡ true
delete_session_stale_example =
    delete_session_stale active suspended (codes "s1") 1 one_session one_session-IsFiled one_there
      statuses_differ

abbrev show : ℤ → Text
show i = codes "0"

abbrev step : StepRecord
step = record { index = pos 0; snapshot_id = []; payload = codes "ls" }

abbrev commands : List Command
commands = adds step ∷ adds step ∷ truncates (pos 0) ∷ adds step ∷ []

commands-AreInRange : AreInRange show commands new_step_history
unfolding apply new_step_history
commands-AreInRange = (
  (omega arith, omega arith),
  ((omega arith, omega arith), ((omega arith, omega arith), ((omega arith, omega arith), tt))),
)

new-IsIncreasing : IsIncreasing new_step_history.records new_step_history.next_index
unfolding new_step_history
new-IsIncreasing = tt

apply_all-IsIncreasing_example :
    IsIncreasing
      (apply_all show commands new_step_history).records
      (apply_all show commands new_step_history).next_index
apply_all-IsIncreasing_example =
    apply_all-IsIncreasing show commands new_step_history new-IsIncreasing commands-AreInRange
