-- ===== src/Session/Listing.antt =====
-- Pages of sessions: ListSessionsPage and its helpers in pkg/gateway/experiment.go. What the store
-- answers, its Range and its indexes with Get, are arguments. Of a session only the fields that the
-- filters and the order read stand here; the others are copied.
pub mod Pages
pub mod Full
pub mod Ids
pub mod Chunks
pub mod Candidates
use agent_env.Base.{
  ℕ, zero, suc, ◌+◌, ◌-◌, ◌*◌, ◌%◌, ◌≤◌, ◌<◌, ◌≡◌, ◌≢◌, refl, sym, ap, ap₂, subst, ◌∙◌, Bool, true,
  false, not, ◌&&◌, ◌||◌, if◌then◌else◌, Option, none, some, List, [], ◌∷◌, ◌++◌, map, ◌==◌, get_or,
  select, inl, inr, ◌⊎◌, ◌↔◌, length, arith, Bool-cases, Option-cases, In, All, All-In, eqb, ltb,
  leb, is_some,
}
use agent_env.Base.Text.{Text, Text_eq, codes, is_empty, trim_space, text_lt}
use agent_env.Base.Int.{ℤ, pos, ltb_ℤ, pos_part}
use agent_env.Base.Sort.{sort}

pub record SessionListItem : Type 0 where
  pub id : Text
  pub created_at : ℕ
  pub profile : Text
  pub experiment_id : Text
  pub status : Text
  pub managed : Bool

pub record SessionListOptions : Type 0 where
  pub profile : Text
  pub experiment_id : Text
  pub status : Text
  pub limit : ℤ
  pub cursor : Text

pub record SessionListPage : Type 0 where
  pub items : List SessionListItem
  pub next_cursor : Text

unfoldable pub session_matches_list_options : SessionListItem → SessionListOptions → Bool
session_matches_list_options s opts =
    let profile = trim_space opts.profile in
    let experiment_id = trim_space opts.experiment_id in
    let status = trim_space opts.status in
    let session_status = if is_empty s.status then codes "active" else s.status in
    (is_empty profile || s.profile == profile)
    && (is_empty experiment_id || s.experiment_id == experiment_id)
    && (is_empty status || session_status == status)

unfoldable pub session_list_item : SessionListOptions → SessionListItem → Option SessionListItem
unfolding session_matches_list_options
session_list_item opts s = if session_matches_list_options s opts then some s else none

-- `limit < 0` counts as no limit, as 0 does.
unfoldable pub page_limit : SessionListOptions → ℕ
page_limit opts = if ltb_ℤ opts.limit (pos 0) then 0 else pos_part opts.limit

unfoldable pub last_id : List SessionListItem → Text
last_id [] = []
last_id (x ∷ []) = x.id
last_id (x ∷ y ∷ ys) = last_id (y ∷ ys)

-- The loop of pageSessionItems.
unfoldable pub page_loop :
    ℕ → Text → Bool → List SessionListItem → List SessionListItem → SessionListPage
unfolding last_id
page_loop limit cursor started [] result = record { items = result; next_cursor = [] }
page_loop limit cursor false (x ∷ xs) result = page_loop limit cursor (x.id == cursor) xs result
page_loop limit cursor true (x ∷ xs) result =
    let rest = page_loop limit cursor true xs (result ++ x ∷ []) in
    if ltb 0 limit && leb limit (length result)
    then record { items = result; next_cursor = last_id result }
    else rest

unfoldable pub page_session_items : List SessionListItem → SessionListOptions → SessionListPage
unfolding page_loop page_limit
page_session_items items opts =
    let cursor = trim_space opts.cursor in
    page_loop (page_limit opts) cursor (is_empty cursor) items []

-- The order of a listing: the oldest first, then by id.
unfoldable pub listed_before : SessionListItem → SessionListItem → Bool
listed_before a b =
    if eqb a.created_at b.created_at then text_lt a.id b.id else ltb a.created_at b.created_at

unfoldable pub matching : SessionListOptions → List SessionListItem → List SessionListItem
unfolding session_list_item
matching opts [] = []
matching opts (s ∷ ss) =
    let rest = matching opts ss in
    elim (session_list_item opts s) [ none ↦ rest | some x ↦ x ∷ rest ]

-- `items = append(items, item)` if the session is listed.
unfoldable pub append_listed :
    SessionListOptions → SessionListItem → List SessionListItem → List SessionListItem
unfolding session_list_item
append_listed opts s items = elim (session_list_item opts s) [
  | none ↦ items
  | some x ↦ items ++ x ∷ []
]

-- The loop of listSessionsFromCandidateIDs. `get` is the store's Get.
unfoldable pub candidate_loop :
    (Text → Option SessionListItem)
    → SessionListOptions
    → Text
    → Text
    → Bool
    → List Text
    → List SessionListItem
    → SessionListPage
unfolding append_listed page_limit
candidate_loop get opts cursor last started [] items = record { items = items; next_cursor = [] }
candidate_loop get opts cursor last false (id ∷ ids) items =
    candidate_loop get opts cursor id (if id == last then false else id == cursor) ids items
candidate_loop get opts cursor last true (id ∷ ids) items =
    let skipped = candidate_loop get opts cursor id true ids items in
    if id == last then skipped else elim (get id) [
      | none ↦ skipped
      | some s ↦
          let longer = append_listed opts s items in
          let limit = page_limit opts in
          let rest = candidate_loop get opts cursor id true ids longer in
          if ltb 0 limit && leb limit (length longer)
          then record { items = longer; next_cursor = id }
          else rest
    ]

unfoldable pub list_sessions_from_candidate_ids :
    (Text → Option SessionListItem) → List Text → SessionListOptions → SessionListPage
unfolding candidate_loop
list_sessions_from_candidate_ids get ids opts =
    let cursor = trim_space opts.cursor in
    candidate_loop get opts cursor [] (is_empty cursor) (sort text_lt ids) []

-- The store's indexes, and its sessions by Get and by Range.
pub record SessionSource : Type 0 where
  pub find_by_experiment : Text → List Text
  pub find_by_profile : Text → List Text
  pub find_by_status : Text → List Text
  pub get : Text → Option SessionListItem
  pub sessions : List SessionListItem

unfoldable pub session_candidate_ids : SessionSource → SessionListOptions → Option (List Text)
session_candidate_ids store opts =
    let experiment_id = trim_space opts.experiment_id in
    let profile = trim_space opts.profile in
    let status = trim_space opts.status in
    if not (is_empty experiment_id)
    then some (store.find_by_experiment experiment_id)
    else if not (is_empty profile)
    then some (store.find_by_profile profile)
    else if not (is_empty status)
    then some (store.find_by_status status)
    else none

unfoldable pub list_sessions_page : SessionSource → SessionListOptions → SessionListPage
unfolding session_candidate_ids list_sessions_from_candidate_ids matching page_session_items
list_sessions_page store opts = elim (session_candidate_ids store opts) [
  | some ids ↦ list_sessions_from_candidate_ids store.get ids opts
  | none ↦ page_session_items (sort listed_before (matching opts store.sessions)) opts
]
