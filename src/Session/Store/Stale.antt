-- ===== src/Session/Store/Stale.antt =====
-- A session that is written in place between Set and Delete.
use agent_env.Base.{ℕ, ◌≡◌, ◌≢◌, true, false, some, arith}
use agent_env.Base.Text.{Text, Text_eq, is_empty}
use agent_env.Base.Table.{lookup}
use agent_env.Base.Sets.{contains}
use agent_env.Session.Store.{
  Heap, MemoryStore, filed_status, remove_from_indexes, delete_session, find_by_status,
  SessionFields,
}
use agent_env.Session.Store.Filing.{IsFiled, unfile_present}
use agent_env.Session.Store.Indexes.{contains-remove}

pub filed_status_nonempty : (s : SessionFields) → is_empty (filed_status s) ≡ false
unfolding filed_status
filed_status_nonempty s = ground arith

-- A session whose status was overwritten in place is still listed under its old status after it is
-- deleted.
pub delete_session_stale :
    (before after : Heap) (id : Text) (p : ℕ) (ms : MemoryStore)
    → IsFiled before ms
    → lookup id ms.sessions ≡ some (some p)
    → filed_status (after p) ≢ filed_status (before p)
    → contains id (find_by_status (filed_status (before p)) (delete_session after id ms)) ≡ true
unfolding delete_session find_by_status remove_from_indexes
delete_session_stale before after id p ms h e d = rw (unfile_present after id ms e) (
    ground (
      arith,
      filed_status_nonempty (before p),
      e,
      h.by_status (filed_status (before p)) id,
      Text_eq.equals_iff (filed_status (after p)) (filed_status (before p)),
      Text_eq.equals_iff (filed_status (before p)) (filed_status (before p)),
      contains-remove (filed_status (after p)) id (filed_status (before p)) id ms.statuses,
    ))
