-- ===== src/Session/Store/Indexes.antt =====
-- One index of MemoryStore against the sessions it files, by a reading of their fields.
use agent_env.Base.{
  ℕ, ◌≡◌, refl, Bool, false, not, ◌&&◌, ◌||◌, if◌then◌else◌, Option, none, some, List, [], ◌∷◌,
  ◌==◌, inl, inr, length, arith, Bool-cases, Option-cases, eqb,
}
use agent_env.Base.Text.{Text, Text_eq, is_empty}
use agent_env.Base.Table.{Table, lookup, insert, delete, lookup_or, lookup-insert, lookup-delete}
use agent_env.Base.Sets.{
  contains, add_to_set, delete_from_set, contains-add_to_set, contains-delete_from_set,
}
use agent_env.Session.Store.{SessionFields, Heap, add_session_index, keep_ids, remove_session_index}

-- The sessions that the store holds with a value under a reading of their fields.
abbrev pub held : (SessionFields → Text) → Heap → Text → Text → Table Text (Option ℕ) → Bool
held read heap value id sessions = elim (lookup id sessions) [
  | none ↦ false
  | some s ↦ elim s [ none ↦ false | some p ↦ not (is_empty value) && read (heap p) == value ]
]

-- An index lists exactly the sessions with the value; the empty value is in no index.
abbrev pub IsFiledBy :
    (SessionFields → Text) → Heap → Table Text (Option ℕ) → Table Text (List Text) → Type 0
IsFiledBy read heap sessions index =
    (value id : Text) → contains id (lookup_or [] value index) ≡ held read heap value id sessions

contains-empty : (a : Text) (xs : List Text) → length xs ≡ 0 → contains a xs ≡ false
unfolding contains
contains-empty a [] h = refl
contains-empty a (x ∷ xs) h = ground arith

pub contains-add :
    (v id w j : Text) (t : Table Text (List Text))
    → contains j (lookup_or [] w (add_session_index v id t))
      ≡ ((not (is_empty v) && v == w && id == j) || contains j (lookup_or [] w t))
unfolding add_session_index
contains-add v id w j t = ground (
  arith,
  lookup-insert v w (add_to_set id (lookup_or [] v t)) t,
  contains-add_to_set id j (lookup_or [] v t),
  Text_eq.equals_iff v w,
)

contains-keep_ids :
    (v w j : Text) (ids : List Text) (t : Table Text (List Text))
    → contains j (lookup_or [] w (keep_ids v ids t))
      ≡ (if v == w then contains j ids else contains j (lookup_or [] w t))
unfolding keep_ids contains
contains-keep_ids v w j ids t = elim (Bool-cases (eqb (length ids) 0)) [
  | inl e ↦ rw (e, lookup-delete v w t) (ground (arith, e, contains-empty j ids))
  | inr e ↦ rw (e, lookup-insert v w ids t) (ground arith)
]

remove_unknown :
    (v id : Text) (t : Table Text (List Text)) → lookup v t ≡ none → remove_session_index v id t ≡ t
unfolding remove_session_index
remove_unknown v id t e = rw (e, remove_session_index) refl

remove_known :
    (v id : Text) (t : Table Text (List Text)) {ids : List Text}
    → lookup v t ≡ some ids
    → remove_session_index v id t
      ≡ (if is_empty v then t else keep_ids v (delete_from_set id ids) t)
unfolding remove_session_index
remove_known v id t e = rw (e, remove_session_index) refl

pub contains-remove :
    (v id w j : Text) (t : Table Text (List Text))
    → contains j (lookup_or [] w (remove_session_index v id t))
      ≡ (not (not (is_empty v) && v == w && id == j) && contains j (lookup_or [] w t))
unfolding contains
contains-remove v id w j t = elim (Option-cases (lookup v t)) [
  | inl e ↦ rw (remove_unknown v id t e) (ground (arith, e, Text_eq.equals_iff v w))
  | inr (ids, e) ↦ rw (remove_known v id t e) (
      ground (
        arith,
        e,
        Text_eq.equals_iff v w,
        contains-keep_ids v w j (delete_from_set id ids) t,
        contains-delete_from_set id j ids,
      ))
]

-- An index without a session, as it is while that session is set or deleted.
abbrev pub IsWithoutBy :
    (SessionFields → Text) → Heap → Text → Table Text (Option ℕ) → Table Text (List Text) → Type 0
IsWithoutBy read heap gone sessions index =
    (value id : Text)
    → contains id (lookup_or [] value index)
      ≡ (not (gone == id) && held read heap value id sessions)

module _ (read : SessionFields → Text) (heap : Heap) (gone : Text)
    (sessions : Table Text (Option ℕ)) (index : Table Text (List Text)) where
  pub without_absent :
      lookup gone sessions ≡ none
      → IsFiledBy read heap sessions index
      → IsWithoutBy read heap gone sessions index
  without_absent e h value id = ground (arith, e, h value id, Text_eq.equals_iff gone id)

  pub without_nil :
      lookup gone sessions ≡ some none
      → IsFiledBy read heap sessions index
      → IsWithoutBy read heap gone sessions index
  without_nil e h value id = ground (arith, e, h value id, Text_eq.equals_iff gone id)

  pub without_removed :
      (p : ℕ)
      → lookup gone sessions ≡ some (some p)
      → IsFiledBy read heap sessions index
      → IsWithoutBy read heap gone sessions (remove_session_index (read (heap p)) gone index)
  without_removed p e h value id = ground (
    arith,
    e,
    h value id,
    Text_eq.equals_iff gone id,
    Text_eq.equals_iff (read (heap p)) value,
    contains-remove (read (heap p)) gone value id index,
  )

  pub filed_nil :
      IsWithoutBy read heap gone sessions index
      → IsFiledBy read heap (insert gone none sessions) index
  filed_nil h value id = ground (arith, h value id, lookup-insert gone id none sessions)

  pub filed_added :
      (p : ℕ)
      → IsWithoutBy read heap gone sessions index
      → IsFiledBy read heap
          (insert gone (some p) sessions)
          (add_session_index (read (heap p)) gone index)
  filed_added p h value id = ground (
    arith,
    h value id,
    lookup-insert gone id (some p) sessions,
    Text_eq.equals_iff (read (heap p)) value,
    contains-add (read (heap p)) gone value id index,
  )

  pub filed_deleted :
      IsWithoutBy read heap gone sessions index → IsFiledBy read heap (delete gone sessions) index
  filed_deleted h value id = ground (arith, h value id, lookup-delete gone id sessions)
