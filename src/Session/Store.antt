-- ===== src/Session/Store.antt =====
-- MemoryStore: pkg/gateway/memory_store.go. Sessions are shared by pointer, so a store holds
-- pointers and each operation takes the heap that they point into at that moment. The functions here
-- are the code's, each run without another call between its statements. No lock spans Set or Delete:
-- Store/Calls has their atomic steps, which may interleave. The index lock makes each change of the
-- indexes one step. Range, Sync and Close keep no state.
pub mod Calls
pub mod Filing
pub mod Indexes
pub mod Stale
use agent_env.Base.{
  ℕ, zero, suc, ◌+◌, ◌-◌, ◌*◌, ◌%◌, ◌≤◌, ◌<◌, ◌≡◌, ◌≢◌, refl, sym, ap, ap₂, subst, ◌∙◌, Bool, true,
  false, not, ◌&&◌, ◌||◌, if◌then◌else◌, Option, none, some, List, [], ◌∷◌, ◌++◌, map, ◌==◌, get_or,
  select, inl, inr, ◌⊎◌, ◌↔◌, length, arith, Bool-cases, Option-cases, In, All, All-In, eqb, ltb,
  leb, is_some,
}
use agent_env.Base.Int.{ℤ, pos, ltb_ℤ, add_int64}
use agent_env.Base.Text.{Text, Text_eq, codes, is_empty}
use agent_env.Base.Table.{Table, lookup, insert, delete, lookup_or}
use agent_env.Base.Sets.{add_to_set, delete_from_set}

-- The fields of a session that the indexes read.
pub record SessionFields : Type 0 where
  pub experiment_id : Text
  pub profile : Text
  pub status : Text

-- What each pointer points to.
abbrev pub Heap : Type 0
Heap = ℕ → SessionFields

-- A session is a pointer, or nil.
pub record MemoryStore : Type 0 where
  pub sessions : Table Text (Option ℕ)
  pub session_count : ℤ
  pub experiments : Table Text (List Text)
  pub profiles : Table Text (List Text)
  pub statuses : Table Text (List Text)

unfoldable pub new_memory_store : MemoryStore
new_memory_store = record {
  sessions = [];
  session_count = pos 0;
  experiments = [];
  profiles = [];
  statuses = [];
}

unfoldable pub add_session_index : Text → Text → Table Text (List Text) → Table Text (List Text)
unfolding insert lookup add_to_set
add_session_index value id index =
    if is_empty value then index else insert value (add_to_set id (lookup_or [] value index)) index

-- What stays of the ids of a value, which is dropped with its last one.
unfoldable pub keep_ids : Text → List Text → Table Text (List Text) → Table Text (List Text)
unfolding insert delete
keep_ids value ids index = if eqb (length ids) 0 then delete value index else insert value ids index

unfoldable pub remove_session_index : Text → Text → Table Text (List Text) → Table Text (List Text)
unfolding lookup delete_from_set keep_ids
remove_session_index value id index = elim (lookup value index) [
  | none ↦ index
  | some ids ↦ if is_empty value then index else keep_ids value (delete_from_set id ids) index
]

-- The status that is filed: an empty one counts as active.
unfoldable pub filed_status : SessionFields → Text
filed_status s = if is_empty s.status then codes "active" else s.status

-- What addToIndexes and removeFromIndexes do under the index lock, with the fields that they read.
abbrev pub file_fields : SessionFields → Text → MemoryStore → MemoryStore
file_fields f id ms = record ms {
  experiments = add_session_index f.experiment_id id ms.experiments;
  profiles = add_session_index f.profile id ms.profiles;
  statuses = add_session_index (filed_status f) id ms.statuses;
}

abbrev pub unfile_fields : SessionFields → Text → MemoryStore → MemoryStore
unfile_fields f id ms = record ms {
  experiments = remove_session_index f.experiment_id id ms.experiments;
  profiles = remove_session_index f.profile id ms.profiles;
  statuses = remove_session_index (filed_status f) id ms.statuses;
}

unfoldable pub add_to_indexes : Heap → Text → Option ℕ → MemoryStore → MemoryStore
unfolding add_session_index filed_status
add_to_indexes heap id none ms = ms
add_to_indexes heap id (some p) ms = file_fields (heap p) id ms

unfoldable pub remove_from_indexes : Heap → Text → Option ℕ → MemoryStore → MemoryStore
unfolding remove_session_index filed_status
remove_from_indexes heap id none ms = ms
remove_from_indexes heap id (some p) ms = unfile_fields (heap p) id ms

-- `if val, ok := sessions.Load(id); ok { removeFromIndexes(id, val) }`
unfoldable pub unfile : Heap → Text → MemoryStore → MemoryStore
unfolding lookup remove_from_indexes
unfile heap id ms = elim (lookup id ms.sessions) [
  | none ↦ ms
  | some s ↦ remove_from_indexes heap id s ms
]

unfoldable pub get : Text → MemoryStore → Option (Option ℕ)
unfolding lookup
get id ms = lookup id ms.sessions

unfoldable pub set : Heap → Text → Option ℕ → MemoryStore → MemoryStore
unfolding unfile insert add_to_indexes
set heap id s ms =
    let cleared = unfile heap id ms in
    add_to_indexes heap id s (record cleared { sessions = insert id s cleared.sessions })

unfoldable pub delete_session : Heap → Text → MemoryStore → MemoryStore
unfolding unfile delete
delete_session heap id ms =
    let cleared = unfile heap id ms in record cleared { sessions = delete id cleared.sessions }

unfoldable pub incr_count : ℤ → MemoryStore → ℤ × MemoryStore
unfolding add_int64
incr_count delta ms =
    let count = add_int64 ms.session_count delta in
    if not (ltb_ℤ count (pos 0))
    then (count, record ms { session_count = count })
    else (pos 0, record ms { session_count = pos 0 })

unfoldable pub set_count : ℤ → MemoryStore → ℤ × MemoryStore
set_count count ms =
    let held = if ltb_ℤ count (pos 0) then pos 0 else count in
    (held, record ms { session_count = held })

unfoldable pub find_by_experiment : Text → MemoryStore → List Text
unfolding lookup
find_by_experiment experiment ms = lookup_or [] experiment ms.experiments

unfoldable pub find_by_profile : Text → MemoryStore → List Text
unfolding lookup
find_by_profile profile ms = lookup_or [] profile ms.profiles

unfoldable pub find_by_status : Text → MemoryStore → List Text
unfolding lookup
find_by_status status ms = lookup_or [] status ms.statuses
