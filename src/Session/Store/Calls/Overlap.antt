-- ===== src/Session/Store/Calls/Overlap.antt =====
-- A Set and a Delete of one id that overlap, as no lock of the store or of the id forbids.
use agent_env.Base.{true, ◌≡◌, refl, some, none, ℕ, arith, ap, ◌∙◌}
use agent_env.Base.Text.{Text, Text_eq}
use agent_env.Base.Table.{lookup-delete, lookup, lookup-insert, insert, delete}
use agent_env.Base.Sets.{contains}
use agent_env.Session.Store.{
  filed_status, remove_session_index, Heap, MemoryStore, file_fields, get, unfile_fields,
  find_by_status,
}
use agent_env.Session.Store.Calls.{Progress, begun, stored, sets, deletes, proceed, unfiled, idle}
use agent_env.Session.Store.Calls.Alone.{proceed_times}
use agent_env.Session.Store.Indexes.{contains-add}
use agent_env.Session.Store.Stale.{filed_status_nonempty}

module _ (heap : Heap) (id : Text) (p : ℕ) (ms : MemoryStore) where
  -- Set loads and stores; Delete loads, reads and takes out of the indexes; Set files; Delete deletes.
  abbrev set_first : Progress × MemoryStore
  set_first = proceed_times 2 heap id (begun (sets (some p)), ms)

  abbrev delete_next : Progress × MemoryStore
  delete_next = proceed_times 3 heap id (begun deletes, set_first.1)

  abbrev set_last : Progress × MemoryStore
  set_last = proceed_times 2 heap id (set_first.0, delete_next.1)

  abbrev overlapped : Progress × MemoryStore
  overlapped = proceed heap id delete_next.0 set_last.1

  set_first_lem :
      lookup id ms.sessions ≡ none
      → set_first ≡ (stored p, record ms { sessions = insert id (some p) ms.sessions })
  unfolding proceed
  set_first_lem e = rw (e, proceed) refl

  there : lookup id (insert id (some p) ms.sessions) ≡ some (some p)
  there = ground (arith, lookup-insert id id (some p) ms.sessions, Text_eq.equals_iff id id)

  delete_next_lem :
      (m : MemoryStore)
      → lookup id m.sessions ≡ some (some p)
      → proceed_times 3 heap id (begun deletes, m) ≡ (unfiled deletes, unfile_fields (heap p) id m)
  unfolding proceed
  delete_next_lem m e = rw (e, proceed) refl

  set_last_lem :
      (m : MemoryStore) → proceed_times 2 heap id (stored p, m) ≡ (idle, file_fields (heap p) id m)
  unfolding proceed
  set_last_lem m = refl

  abbrev after_set : MemoryStore
  after_set = record ms { sessions = insert id (some p) ms.sessions }

  abbrev filed_again : MemoryStore
  filed_again = file_fields (heap p) id (unfile_fields (heap p) id after_set)

  overlapped_lem :
      lookup id ms.sessions ≡ none
      → overlapped ≡ (idle, record filed_again { sessions = delete id filed_again.sessions })
  unfolding proceed
  overlapped_lem e =
      let d : delete_next ≡ (unfiled deletes, unfile_fields (heap p) id after_set) =
        ap (λ r. proceed_times 3 heap id (begun deletes, r.1)) (set_first_lem e)
        ∙ delete_next_lem after_set there in
      let l : set_last ≡ (idle, filed_again) =
        ap (λ r. proceed_times 2 heap id (r.0, delete_next.1)) (set_first_lem e)
        ∙ set_last_lem delete_next.1
        ∙ ap (λ r. (idle, file_fields (heap p) id r.1)) d in
      ap (λ r. proceed heap id r.0 set_last.1) d ∙ ap (λ r. proceed heap id (unfiled deletes) r.1) l

  -- A new session whose Set is overtaken by a Delete between the Store and the change of the indexes
  -- is gone, but its id stays listed under its status.
  overlapped_stale :
      lookup id ms.sessions ≡ none
      → (get id overlapped.1 ≡ none)
        × (contains id (find_by_status (filed_status (heap p)) overlapped.1) ≡ true)
  unfolding get find_by_status
  overlapped_stale e = rw (overlapped_lem e) (
    ground (arith, lookup-delete id id filed_again.sessions, Text_eq.equals_iff id id),
    ground (
      arith,
      filed_status_nonempty (heap p),
      Text_eq.equals_iff id id,
      Text_eq.equals_iff (filed_status (heap p)) (filed_status (heap p)),
      contains-add (filed_status (heap p)) id (filed_status (heap p)) id
          (remove_session_index (filed_status (heap p)) id ms.statuses),
    ),
  )
