-- ===== src/Session/Store/Filing.antt =====
-- The indexes of MemoryStore against its sessions, while no session is written in place.
use agent_env.Base.{
  if◌then◌else◌, ◌==◌, not, ◌&&◌, ap, ◌∙◌, ℕ, ◌≡◌, refl, sym, subst, Option, none, some, inl, inr,
  Option-cases,
}
use agent_env.Base.Text.{Text_eq, Text}
use agent_env.Base.Table.{lookup, lookup-delete}
use agent_env.Base.Sets.{contains}
use agent_env.Session.Store.Indexes.{
  held, IsFiledBy, IsWithoutBy, without_absent, without_nil, without_removed, filed_nil,
  filed_added, filed_deleted,
}
use agent_env.Session.Store.{
  get, find_by_experiment, find_by_profile, find_by_status, new_memory_store, SessionFields, Heap,
  MemoryStore, filed_status, add_to_indexes, remove_from_indexes, unfile, set, delete_session,
}

abbrev pub experiment_of : SessionFields → Text
experiment_of s = s.experiment_id

abbrev pub profile_of : SessionFields → Text
profile_of s = s.profile

-- Each of the three indexes lists exactly the sessions with the value.
pub record IsFiled (heap : Heap) (ms : MemoryStore) : Type 0 where
  pub by_experiment : IsFiledBy experiment_of heap ms.sessions ms.experiments
  pub by_profile : IsFiledBy profile_of heap ms.sessions ms.profiles
  pub by_status : IsFiledBy filed_status heap ms.sessions ms.statuses

record IsWithout (heap : Heap) (gone : Text) (ms : MemoryStore) : Type 0 where
  by_experiment : IsWithoutBy experiment_of heap gone ms.sessions ms.experiments
  by_profile : IsWithoutBy profile_of heap gone ms.sessions ms.profiles
  by_status : IsWithoutBy filed_status heap gone ms.sessions ms.statuses

pub new_memory_store-IsFiled : (heap : Heap) → IsFiled heap new_memory_store
unfolding new_memory_store lookup contains
new_memory_store-IsFiled heap = record {
  by_experiment = λ v i. refl;
  by_profile = λ v i. refl;
  by_status = λ v i. refl;
}

unfile_absent :
    (heap : Heap) (id : Text) (ms : MemoryStore)
    → lookup id ms.sessions ≡ none
    → unfile heap id ms ≡ ms
unfolding unfile
unfile_absent heap id ms e = rw (e, unfile) refl

pub unfile_present :
    (heap : Heap) (id : Text) (ms : MemoryStore) {s : Option ℕ}
    → lookup id ms.sessions ≡ some s
    → unfile heap id ms ≡ remove_from_indexes heap id s ms
unfolding unfile
unfile_present heap id ms e = rw (e, unfile) refl

remove-IsWithout :
    (heap : Heap) (id : Text) (s : Option ℕ) (ms : MemoryStore)
    → lookup id ms.sessions ≡ some s
    → IsFiled heap ms
    → IsWithout heap id (remove_from_indexes heap id s ms)
unfolding remove_from_indexes
remove-IsWithout heap id none ms e h = record {
  by_experiment = without_nil experiment_of heap id _ _ e h.by_experiment;
  by_profile = without_nil profile_of heap id _ _ e h.by_profile;
  by_status = without_nil filed_status heap id _ _ e h.by_status;
}
remove-IsWithout heap id (some p) ms e h = record {
  by_experiment = without_removed experiment_of heap id _ _ p e h.by_experiment;
  by_profile = without_removed profile_of heap id _ _ p e h.by_profile;
  by_status = without_removed filed_status heap id _ _ p e h.by_status;
}

unfile-IsWithout :
    (heap : Heap) (id : Text) (ms : MemoryStore)
    → IsFiled heap ms
    → IsWithout heap id (unfile heap id ms)
unfile-IsWithout heap id ms h = elim (Option-cases (lookup id ms.sessions)) [
  | inl e ↦ subst (IsWithout heap id) (sym (unfile_absent heap id ms e)) (record {
    by_experiment = without_absent experiment_of heap id _ _ e h.by_experiment;
    by_profile = without_absent profile_of heap id _ _ e h.by_profile;
    by_status = without_absent filed_status heap id _ _ e h.by_status;
  })
  | inr (s, e) ↦
      subst (IsWithout heap id) (sym (unfile_present heap id ms e))
        (remove-IsWithout heap id s ms e h)
]

-- While no session is written in place, the indexes still agree with the sessions after Set.
pub set-IsFiled :
    (heap : Heap) (id : Text) (s : Option ℕ) (ms : MemoryStore)
    → IsFiled heap ms
    → IsFiled heap (set heap id s ms)
unfolding set add_to_indexes
set-IsFiled heap id none ms h =
    let w = unfile-IsWithout heap id ms h in
    record {
      by_experiment = filed_nil experiment_of heap id _ _ w.by_experiment;
      by_profile = filed_nil profile_of heap id _ _ w.by_profile;
      by_status = filed_nil filed_status heap id _ _ w.by_status;
    }
set-IsFiled heap id (some p) ms h =
    let w = unfile-IsWithout heap id ms h in
    record {
      by_experiment = filed_added experiment_of heap id _ _ p w.by_experiment;
      by_profile = filed_added profile_of heap id _ _ p w.by_profile;
      by_status = filed_added filed_status heap id _ _ p w.by_status;
    }

-- While no session is written in place, the indexes still agree with the sessions after Delete.
delete_session-IsFiled :
    (heap : Heap) (id : Text) (ms : MemoryStore)
    → IsFiled heap ms
    → IsFiled heap (delete_session heap id ms)
unfolding delete_session
delete_session-IsFiled heap id ms h =
    let w = unfile-IsWithout heap id ms h in
    record {
      by_experiment = filed_deleted experiment_of heap id _ _ w.by_experiment;
      by_profile = filed_deleted profile_of heap id _ _ w.by_profile;
      by_status = filed_deleted filed_status heap id _ _ w.by_status;
    }

-- The id has no session and stands in no index; every other id has its session and its places.
pub record IsForgotten (id : Text) (ms new : MemoryStore) : Type 0 where
  pub sessions : (other : Text) → get other new ≡ (if id == other then none else get other ms)
  pub experiments :
      (value other : Text)
      → contains other (find_by_experiment value new)
        ≡ (not (id == other) && contains other (find_by_experiment value ms))
  pub profiles :
      (value other : Text)
      → contains other (find_by_profile value new)
        ≡ (not (id == other) && contains other (find_by_profile value ms))
  pub statuses :
      (value other : Text)
      → contains other (find_by_status value new)
        ≡ (not (id == other) && contains other (find_by_status value ms))

remove_sessions :
    (heap : Heap) (id : Text) (s : Option ℕ) (ms : MemoryStore)
    → (remove_from_indexes heap id s ms).sessions ≡ ms.sessions
unfolding remove_from_indexes
remove_sessions heap id none ms = refl
remove_sessions heap id (some p) ms = refl

unfile_sessions :
    (heap : Heap) (id : Text) (ms : MemoryStore) → (unfile heap id ms).sessions ≡ ms.sessions
unfile_sessions heap id ms = elim (Option-cases (lookup id ms.sessions)) [
  | inl e ↦ ap (λ x. x.sessions) (unfile_absent heap id ms e)
  | inr (s, e) ↦ ap (λ x. x.sessions) (unfile_present heap id ms e) ∙ remove_sessions heap id s ms
]

-- While no session is written in place, and where the indexes agree with the sessions, Delete without
-- another call between its statements leaves its id with no session and in no index, under whatever
-- value, and keeps the session and the places of every other id.
pub delete_session-IsForgotten :
    (heap : Heap) (id : Text) (ms : MemoryStore)
    → IsFiled heap ms
    → IsForgotten id ms (delete_session heap id ms)
unfolding delete_session get find_by_experiment find_by_profile find_by_status
delete_session-IsForgotten heap id ms h =
    let w = unfile-IsWithout heap id ms h in
    let e = unfile_sessions heap id ms in
    record {
      sessions = λ other. rw (e) (lookup-delete id other ms.sessions);
      experiments = λ v other.
          w.by_experiment v other
          ∙ ap (λ x. not (id == other) && x)
              (ap (λ t. held experiment_of heap v other t) e ∙ sym (h.by_experiment v other));
      profiles = λ v other.
          w.by_profile v other
          ∙ ap (λ x. not (id == other) && x)
              (ap (λ t. held profile_of heap v other t) e ∙ sym (h.by_profile v other));
      statuses = λ v other.
          w.by_status v other
          ∙ ap (λ x. not (id == other) && x)
              (ap (λ t. held filed_status heap v other t) e ∙ sym (h.by_status v other));
    }
