-- ===== src/Session/Store/Calls/Alone.antt =====
-- A call of Set or Delete whose steps no other call comes between.
use agent_env.Base.{ℕ, zero, suc, ◌≡◌, refl, Option, none, some}
use agent_env.Base.Text.{Text, Text_eq}
use agent_env.Base.Table.{lookup}
use agent_env.Session.Store.{
  Heap, MemoryStore, unfile, set, add_to_indexes, remove_from_indexes, delete_session,
}
use agent_env.Session.Store.Calls.{Progress, idle, begun, sets, proceed, deletes}

-- Some steps of one call in a row.
abbrev pub proceed_times : ℕ → Heap → Text → Progress × MemoryStore → Progress × MemoryStore
proceed_times zero heap id r = r
proceed_times (suc n) heap id r = proceed_times n heap id (proceed heap id r.0 r.1)

module _ (heap : Heap) (id : Text) (ms : MemoryStore) where
  set_found :
      (s : Option ℕ) (old : Option (Option ℕ))
      → lookup id ms.sessions ≡ old
      → proceed_times 6 heap id (begun (sets s), ms) ≡ (idle, set heap id s ms)
  unfolding proceed set unfile add_to_indexes remove_from_indexes
  set_found none none e = rw (e, proceed, unfile) refl
  set_found (some p) none e = rw (e, proceed, unfile) refl
  set_found none (some none) e = rw (e, proceed, unfile) refl
  set_found (some p) (some none) e = rw (e, proceed, unfile) refl
  set_found none (some (some q)) e = rw (e, proceed, unfile) refl
  set_found (some p) (some (some q)) e = rw (e, proceed, unfile) refl

  delete_session_found :
      (old : Option (Option ℕ))
      → lookup id ms.sessions ≡ old
      → proceed_times 4 heap id (begun deletes, ms) ≡ (idle, delete_session heap id ms)
  unfolding proceed delete_session unfile remove_from_indexes
  delete_session_found none e = rw (e, proceed, unfile) refl
  delete_session_found (some none) e = rw (e, proceed, unfile) refl
  delete_session_found (some (some q)) e = rw (e, proceed, unfile) refl

  -- Six steps in a row are Set.
  proceed_times-set :
      (s : Option ℕ) → proceed_times 6 heap id (begun (sets s), ms) ≡ (idle, set heap id s ms)
  proceed_times-set s = set_found s (lookup id ms.sessions) refl

  -- Four steps in a row are Delete.
  proceed_times-delete_session :
      proceed_times 4 heap id (begun deletes, ms) ≡ (idle, delete_session heap id ms)
  proceed_times-delete_session = delete_session_found (lookup id ms.sessions) refl
