-- ===== src/Session/Store/Calls/Own.antt =====
-- One call of Set or Delete: what its own steps make of the store, as far as its id goes.
use agent_env.Base.{ℕ, ◌≡◌, refl, sym, ◌∙◌, false, Option, none, some, List, [], arith}
use agent_env.Base.Text.{Text, Text_eq}
use agent_env.Base.Table.{Table, lookup, insert, delete, lookup_or, lookup-insert, lookup-delete}
use agent_env.Base.Sets.{contains}
use agent_env.Session.Store.{
  SessionFields, Heap, MemoryStore, filed_status, remove_session_index, add_session_index,
}
use agent_env.Session.Store.Calls.{
  Goal, sets, deletes, Progress, idle, begun, unfiled, loaded, leaving, stored, joining, proceed,
  outcome, after_load,
}
use agent_env.Session.Store.Filing.{experiment_of, profile_of}
use agent_env.Session.Store.Indexes.{held, contains-add, contains-remove}

-- An index lists the id under exactly the value of its session, and under none.
abbrev pub IsFiledIn :
    (SessionFields → Text) → Heap → Text → Table Text (Option ℕ) → Table Text (List Text) → Type 0
IsFiledIn read heap id sessions index =
    (value : Text) → contains id (lookup_or [] value index) ≡ held read heap value id sessions

abbrev IsOutOf : Text → Table Text (List Text) → Type 0
IsOutOf id index = (value : Text) → contains id (lookup_or [] value index) ≡ false

-- All three indexes list the id under exactly the values of its session.
pub record IsFiledAt (heap : Heap) (id : Text) (ms : MemoryStore) : Type 0 where
  pub by_experiment : IsFiledIn experiment_of heap id ms.sessions ms.experiments
  pub by_profile : IsFiledIn profile_of heap id ms.sessions ms.profiles
  pub by_status : IsFiledIn filed_status heap id ms.sessions ms.statuses

pub record IsBareAt (id : Text) (ms : MemoryStore) : Type 0 where
  pub of_experiments : IsOutOf id ms.experiments
  pub of_profiles : IsOutOf id ms.profiles
  pub of_statuses : IsOutOf id ms.statuses

-- The store, as far as the id goes, while its call has come so far.
abbrev pub IsAt : Heap → Text → MemoryStore → Option (Option ℕ) → Progress → Type 0
IsAt heap id ms latest idle = (lookup id ms.sessions ≡ latest) × IsFiledAt heap id ms
IsAt heap id ms latest (begun g) = (latest ≡ outcome g) × IsFiledAt heap id ms
IsAt heap id ms latest (loaded g p) =
    (latest ≡ outcome g) × (lookup id ms.sessions ≡ some (some p)) × IsFiledAt heap id ms
IsAt heap id ms latest (leaving g f) =
    (p : ℕ) × (latest ≡ outcome g)
    × (lookup id ms.sessions ≡ some (some p))
    × (f ≡ heap p)
    × IsFiledAt heap id ms
IsAt heap id ms latest (unfiled g) = (latest ≡ outcome g) × IsBareAt id ms
IsAt heap id ms latest (stored p) =
    (latest ≡ some (some p)) × (lookup id ms.sessions ≡ some (some p)) × IsBareAt id ms
IsAt heap id ms latest (joining f) =
    (p : ℕ) × (latest ≡ some (some p))
    × (lookup id ms.sessions ≡ some (some p))
    × (f ≡ heap p)
    × IsBareAt id ms

module _ (read : SessionFields → Text) (heap : Heap) (id : Text) (sessions : Table Text (Option ℕ))
    (index : Table Text (List Text)) where
  out_absent : lookup id sessions ≡ none → IsFiledIn read heap id sessions index → IsOutOf id index
  out_absent e h value = ground (arith, e, h value)

  out_nil :
      lookup id sessions ≡ some none → IsFiledIn read heap id sessions index → IsOutOf id index
  out_nil e h value = ground (arith, e, h value)

  filed_absent : IsOutOf id index → IsFiledIn read heap id (delete id sessions) index
  filed_absent h value =
      ground (arith, h value, lookup-delete id id sessions, Text_eq.equals_iff id id)

  filed_nothing : IsOutOf id index → IsFiledIn read heap id (insert id none sessions) index
  filed_nothing h value =
      ground (arith, h value, lookup-insert id id none sessions, Text_eq.equals_iff id id)

  module _ (p : ℕ) (there : lookup id sessions ≡ some (some p)) (value : Text) where
    out_removed :
        contains id (lookup_or [] value index) ≡ held read heap value id sessions
        → contains id (lookup_or [] value (remove_session_index (read (heap p)) id index)) ≡ false
    out_removed h = ground (
      arith,
      there,
      h,
      Text_eq.equals_iff id id,
      Text_eq.equals_iff (read (heap p)) value,
      contains-remove (read (heap p)) id value id index,
    )

    in_added :
        contains id (lookup_or [] value index) ≡ false
        → contains id (lookup_or [] value (add_session_index (read (heap p)) id index))
          ≡ held read heap value id sessions
    in_added h = ground (
      arith,
      there,
      h,
      Text_eq.equals_iff id id,
      Text_eq.equals_iff (read (heap p)) value,
      contains-add (read (heap p)) id value id index,
    )

begun-IsAt :
    (heap : Heap) (id : Text) (ms : MemoryStore) (latest s : Option (Option ℕ)) (g : Goal)
    → lookup id ms.sessions ≡ s
    → IsAt heap id ms latest (begun g)
    → IsAt heap id ms latest (after_load g s)
begun-IsAt heap id ms latest none g e (l, h) = (
  l,
  record {
    of_experiments = out_absent experiment_of heap id _ _ e h.by_experiment;
    of_profiles = out_absent profile_of heap id _ _ e h.by_profile;
    of_statuses = out_absent filed_status heap id _ _ e h.by_status;
  },
)
begun-IsAt heap id ms latest (some none) g e (l, h) = (
  l,
  record {
    of_experiments = out_nil experiment_of heap id _ _ e h.by_experiment;
    of_profiles = out_nil profile_of heap id _ _ e h.by_profile;
    of_statuses = out_nil filed_status heap id _ _ e h.by_status;
  },
)
begun-IsAt heap id ms latest (some (some p)) g e (l, h) = (l, e, h)

-- A call's own step.
pub proceed-IsAt :
    (heap : Heap) (id : Text) (ms : MemoryStore) (latest : Option (Option ℕ)) (x : Progress)
    → IsAt heap id ms latest x
    → IsAt heap id (proceed heap id x ms).1 latest (proceed heap id x ms).0
unfolding proceed
proceed-IsAt heap id ms latest idle h = h
proceed-IsAt heap id ms latest (begun g) h = begun-IsAt heap id ms latest _ g refl h
proceed-IsAt heap id ms latest (loaded g p) (l, e, h) = (p, l, e, refl, h)
proceed-IsAt heap id ms latest (leaving g f) (p, l, e, q, h) = rw q (
  l,
  record {
    of_experiments =
        λ v. out_removed experiment_of heap id ms.sessions ms.experiments p e v (h.by_experiment v);
    of_profiles =
        λ v. out_removed profile_of heap id ms.sessions ms.profiles p e v (h.by_profile v);
    of_statuses =
        λ v. out_removed filed_status heap id ms.sessions ms.statuses p e v (h.by_status v);
  },
)
proceed-IsAt heap id ms latest (unfiled (sets none)) (l, b) = (
  ground (arith, l, lookup-insert id id none ms.sessions, Text_eq.equals_iff id id),
  record {
    by_experiment = filed_nothing experiment_of heap id _ _ b.of_experiments;
    by_profile = filed_nothing profile_of heap id _ _ b.of_profiles;
    by_status = filed_nothing filed_status heap id _ _ b.of_statuses;
  },
)
proceed-IsAt heap id ms latest (unfiled (sets (some p))) (l, b) = (
  l,
  ground (arith, lookup-insert id id (some p) ms.sessions, Text_eq.equals_iff id id),
  record {
    of_experiments = b.of_experiments;
    of_profiles = b.of_profiles;
    of_statuses = b.of_statuses;
  },
)
proceed-IsAt heap id ms latest (unfiled deletes) (l, b) = (
  ground (arith, l, lookup-delete id id ms.sessions, Text_eq.equals_iff id id),
  record {
    by_experiment = filed_absent experiment_of heap id _ _ b.of_experiments;
    by_profile = filed_absent profile_of heap id _ _ b.of_profiles;
    by_status = filed_absent filed_status heap id _ _ b.of_statuses;
  },
)
proceed-IsAt heap id ms latest (stored p) (l, e, b) = (p, l, e, refl, b)
proceed-IsAt heap id ms latest (joining f) (p, l, e, q, b) = rw q (
  e ∙ sym l,
  record {
    by_experiment =
        λ v. in_added experiment_of heap id ms.sessions ms.experiments p e v (b.of_experiments v);
    by_profile = λ v. in_added profile_of heap id ms.sessions ms.profiles p e v (b.of_profiles v);
    by_status = λ v. in_added filed_status heap id ms.sessions ms.statuses p e v (b.of_statuses v);
  },
)
