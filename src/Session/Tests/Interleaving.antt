-- ===== src/Session/Tests/Interleaving.antt =====
-- A Set and a Delete of two sessions that take turns.
use agent_env.Base.{◌≡◌, refl, some}
use agent_env.Base.Text.{Text, Text_eq, codes}
use agent_env.Session.Store.{Heap, get}
use agent_env.Session.Store.Calls.{
  idle, sets, deletes, Shared, nothing_shared, begin, advance, IsCallStep, IsCallRun,
}
use agent_env.Session.Store.Calls.Own.{IsFiledAt}
use agent_env.Session.Store.Calls.Settled.{calls_settle}

abbrev heap : Heap
heap p = record { experiment_id = codes "exp"; profile = codes "default"; status = codes "active" }

abbrev a : Text
a = codes "a"

abbrev b : Text
b = codes "b"

abbrev both : Shared
both = begin b deletes (begin a (sets (some 1)) nothing_shared)

abbrev turns : Shared
turns =
    advance heap a
      (advance heap b (advance heap a (advance heap a (advance heap b (advance heap a both)))))

a_idle : nothing_shared.calls a ≡ idle
unfolding nothing_shared
a_idle = refl

b_idle : (begin a (sets (some 1)) nothing_shared).calls b ≡ idle
unfolding begin agent_env.Base.Text.text_eq nothing_shared
b_idle = refl

turns-IsCallRun : IsCallRun heap turns
turns-IsCallRun =
    IsCallRun.after
      (IsCallRun.after
        (IsCallRun.after
          (IsCallRun.after
            (IsCallRun.after
              (IsCallRun.after
                (IsCallRun.after
                  (IsCallRun.after IsCallRun.here
                    (IsCallStep.begins a (sets (some 1)) nothing_shared a_idle))
                  (IsCallStep.begins b deletes (begin a (sets (some 1)) nothing_shared) b_idle))
                (IsCallStep.advances a both))
              (IsCallStep.advances b (advance heap a both)))
            (IsCallStep.advances a (advance heap b (advance heap a both))))
          (IsCallStep.advances a (advance heap a (advance heap b (advance heap a both)))))
        (IsCallStep.advances b
          (advance heap a (advance heap a (advance heap b (advance heap a both))))))
      (IsCallStep.advances a
        (advance heap b (advance heap a (advance heap a (advance heap b (advance heap a both))))))

turned : turns.calls a ≡ idle
unfolding advance agent_env.Base.Text.text_eq begin nothing_shared
    agent_env.Session.Store.new_memory_store
turned = refl

calls_settle_example : (get a turns.store ≡ turns.latest a) × IsFiledAt heap a turns.store
calls_settle_example = calls_settle heap turns a turns-IsCallRun turned
