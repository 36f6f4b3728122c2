-- ===== src/Session/Store/Calls/Others.antt =====
-- What the steps of the other calls keep of an id.
use agent_env.Base.{ℕ, ◌≡◌, ◌≢◌, refl, sym, ◌∙◌, false, Option, none, some, List, [], ◌==◌, arith}
use agent_env.Base.Text.{Text, Text_eq}
use agent_env.Base.Table.{Table, lookup, lookup_or, lookup-insert, lookup-delete}
use agent_env.Base.Sets.{contains}
use agent_env.Session.Store.{
  SessionFields, Heap, MemoryStore, filed_status, remove_session_index, add_session_index,
}
use agent_env.Session.Store.Calls.{
  sets, deletes, Progress, idle, begun, unfiled, loaded, leaving, stored, joining, proceed,
}
use agent_env.Session.Store.Filing.{experiment_of, profile_of}
use agent_env.Session.Store.Indexes.{held, contains-add, contains-remove}
use agent_env.Session.Store.Calls.Own.{IsFiledAt, IsBareAt, IsAt}

-- What a step of another call keeps of an id.
pub record IsKept (id : Text) (ms new : MemoryStore) : Type 0 where
  same_session : lookup id new.sessions ≡ lookup id ms.sessions
  same_experiments :
      (v : Text)
      → contains id (lookup_or [] v new.experiments) ≡ contains id (lookup_or [] v ms.experiments)
  same_profiles :
      (v : Text)
      → contains id (lookup_or [] v new.profiles) ≡ contains id (lookup_or [] v ms.profiles)
  same_statuses :
      (v : Text)
      → contains id (lookup_or [] v new.statuses) ≡ contains id (lookup_or [] v ms.statuses)

module _ (id other : Text) (apart : id ≢ other) where
  different : (other == id) ≡ false
  different = ground (arith, apart, Text_eq.equals_iff other id)

  kept_added :
      (value v : Text) (index : Table Text (List Text))
      → contains id (lookup_or [] v (add_session_index value other index))
        ≡ contains id (lookup_or [] v index)
  kept_added value v index = ground (arith, different, contains-add value other v id index)

  kept_removed :
      (value v : Text) (index : Table Text (List Text))
      → contains id (lookup_or [] v (remove_session_index value other index))
        ≡ contains id (lookup_or [] v index)
  kept_removed value v index = ground (arith, different, contains-remove value other v id index)

  elsewhere :
      (ms : MemoryStore) (sessions : Table Text (Option ℕ))
      → lookup id sessions ≡ lookup id ms.sessions
      → IsKept id ms (record ms { sessions = sessions })
  elsewhere ms sessions e = record {
    same_session = e;
    same_experiments = λ v. refl;
    same_profiles = λ v. refl;
    same_statuses = λ v. refl;
  }

  pub proceed-IsKept :
      (heap : Heap) (x : Progress) (ms : MemoryStore) → IsKept id ms (proceed heap other x ms).1
  unfolding proceed
  proceed-IsKept heap idle ms = elsewhere ms ms.sessions refl
  proceed-IsKept heap (begun g) ms = elsewhere ms ms.sessions refl
  proceed-IsKept heap (loaded g p) ms = elsewhere ms ms.sessions refl
  proceed-IsKept heap (stored p) ms = elsewhere ms ms.sessions refl
  proceed-IsKept heap (unfiled (sets none)) ms =
      elsewhere ms _ (ground (arith, different, lookup-insert other id none ms.sessions))
  proceed-IsKept heap (unfiled (sets (some p))) ms =
      elsewhere ms _ (ground (arith, different, lookup-insert other id (some p) ms.sessions))
  proceed-IsKept heap (unfiled deletes) ms =
      elsewhere ms _ (ground (arith, different, lookup-delete other id ms.sessions))
  proceed-IsKept heap (leaving g f) ms = record {
    same_session = refl;
    same_experiments = λ v. kept_removed f.experiment_id v ms.experiments;
    same_profiles = λ v. kept_removed f.profile v ms.profiles;
    same_statuses = λ v. kept_removed (filed_status f) v ms.statuses;
  }
  proceed-IsKept heap (joining f) ms = record {
    same_session = refl;
    same_experiments = λ v. kept_added f.experiment_id v ms.experiments;
    same_profiles = λ v. kept_added f.profile v ms.profiles;
    same_statuses = λ v. kept_added (filed_status f) v ms.statuses;
  }

module _ (heap : Heap) (id : Text) (ms new : MemoryStore) (k : IsKept id ms new) where
  held_kept :
      (read : SessionFields → Text) (v : Text)
      → held read heap v id new.sessions ≡ held read heap v id ms.sessions
  held_kept read v = rw (k.same_session, held) refl

  filed_kept : IsFiledAt heap id ms → IsFiledAt heap id new
  filed_kept h = record {
    by_experiment = λ v. k.same_experiments v ∙ h.by_experiment v ∙ sym (held_kept experiment_of v);
    by_profile = λ v. k.same_profiles v ∙ h.by_profile v ∙ sym (held_kept profile_of v);
    by_status = λ v. k.same_statuses v ∙ h.by_status v ∙ sym (held_kept filed_status v);
  }

  bare_kept : IsBareAt id ms → IsBareAt id new
  bare_kept h = record {
    of_experiments = λ v. k.same_experiments v ∙ h.of_experiments v;
    of_profiles = λ v. k.same_profiles v ∙ h.of_profiles v;
    of_statuses = λ v. k.same_statuses v ∙ h.of_statuses v;
  }

  pub kept-IsAt :
      (latest : Option (Option ℕ)) (x : Progress)
      → IsAt heap id ms latest x
      → IsAt heap id new latest x
  kept-IsAt latest idle (e, h) = (k.same_session ∙ e, filed_kept h)
  kept-IsAt latest (begun g) (l, h) = (l, filed_kept h)
  kept-IsAt latest (loaded g p) (l, e, h) = (l, k.same_session ∙ e, filed_kept h)
  kept-IsAt latest (leaving g f) (p, l, e, q, h) = (p, l, k.same_session ∙ e, q, filed_kept h)
  kept-IsAt latest (unfiled g) (l, b) = (l, bare_kept b)
  kept-IsAt latest (stored p) (l, e, b) = (l, k.same_session ∙ e, bare_kept b)
  kept-IsAt latest (joining f) (p, l, e, q, b) = (p, l, k.same_session ∙ e, q, bare_kept b)
