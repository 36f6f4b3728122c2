-- ===== src/Session/Store/Calls.antt =====
-- Set and Delete of MemoryStore by their atomic steps: the Load, the reading of a session's fields
-- under its own lock, each change of the indexes under the index lock, the Store, and the Delete of the
-- map. Steps of calls with different ids may come in any order. Calls with one id come one after the
-- other here.
pub mod Own
pub mod Others
pub mod Settled
pub mod Alone
pub mod Overlap
use agent_env.Base.{ℕ, if◌then◌else◌, Option, none, some, ◌==◌, ◌≡◌}
use agent_env.Base.Text.{Text, Text_eq}
use agent_env.Base.Table.{lookup, insert, delete}
use agent_env.Session.Store.{
  SessionFields, Heap, MemoryStore, new_memory_store, file_fields, unfile_fields, add_session_index,
  remove_session_index, filed_status,
}

-- What a call is for: a session that Set stores, or nil, or Delete.
pub data Goal : Type 0 where
  sets : Option ℕ → Goal
  deletes : Goal

-- How far the call with an id has come: before its Load; with the session that was loaded, and then
-- its fields; before the write of the map; and in Set, after it, and with the fields of the session.
pub data Progress : Type 0 where
  idle : Progress
  begun unfiled : Goal → Progress
  loaded : Goal → ℕ → Progress
  leaving : Goal → SessionFields → Progress
  stored : ℕ → Progress
  joining : SessionFields → Progress

-- After the Load; there is nothing to take out of the indexes for no session, and for nil.
abbrev pub after_load : Goal → Option (Option ℕ) → Progress
after_load g none = unfiled g
after_load g (some none) = unfiled g
after_load g (some (some p)) = loaded g p

-- The next step of the call with an id.
unfoldable pub proceed : Heap → Text → Progress → MemoryStore → Progress × MemoryStore
unfolding lookup insert delete add_session_index remove_session_index filed_status
proceed heap id idle ms = (idle, ms)
proceed heap id (begun g) ms = (after_load g (lookup id ms.sessions), ms)
proceed heap id (loaded g p) ms = (leaving g (heap p), ms)
proceed heap id (leaving g f) ms = (unfiled g, unfile_fields f id ms)
proceed heap id (unfiled (sets none)) ms =
    (idle, record ms { sessions = insert id none ms.sessions })
proceed heap id (unfiled (sets (some p))) ms =
    (stored p, record ms { sessions = insert id (some p) ms.sessions })
proceed heap id (unfiled deletes) ms = (idle, record ms { sessions = delete id ms.sessions })
proceed heap id (stored p) ms = (joining (heap p), ms)
proceed heap id (joining f) ms = (idle, file_fields f id ms)

-- What the store should have for an id once a call is over.
abbrev pub outcome : Goal → Option (Option ℕ)
outcome (sets s) = some s
outcome deletes = none

-- The store with the calls under way, and for each id what its latest call was for.
pub record Shared : Type 0 where
  pub store : MemoryStore
  pub calls : Text → Progress
  pub latest : Text → Option (Option ℕ)

abbrev pub write : {A : Type 0} → Text → A → (Text → A) → Text → A
write id x f other = if id == other then x else f other

unfoldable pub nothing_shared : Shared
nothing_shared = record { store = new_memory_store; calls = λ id. idle; latest = λ id. none }

unfoldable pub begin : Text → Goal → Shared → Shared
begin id g s = record s {
  calls = write id (begun g) s.calls;
  latest = write id (outcome g) s.latest;
}

unfoldable pub advance : Heap → Text → Shared → Shared
unfolding proceed
advance heap id s =
    let r = proceed heap id (s.calls id) s.store in
    record s { store = r.1; calls = write id r.0 s.calls }

-- One step: a call begins, or one that is under way takes its next step.
pub data IsCallStep (heap : Heap) : Shared → Shared → Type 0 where
  begins :
      (id : Text) (g : Goal) (s : Shared) → s.calls id ≡ idle → IsCallStep heap s (begin id g s)
  advances : (id : Text) (s : Shared) → IsCallStep heap s (advance heap id s)

pub data IsCallRun (heap : Heap) : Shared → Type 0 where
  here : IsCallRun heap nothing_shared
  after : {s t : Shared} → IsCallRun heap s → IsCallStep heap s t → IsCallRun heap t
