-- ===== src/Session/Listing/Candidates.antt =====
-- The pages of listSessionsFromCandidateIDs over the ids that an index names.
use agent_env.Base.{
  ◌≡◌, refl, ap, ◌∙◌, Option, some, List, [], ◌∷◌, ◌++◌, arith, sym, true, length, subst, All,
  fun_ext, suc, All-of_In, All-In,
}
use agent_env.Base.Text.{Text, Text_eq, text_lt, is_empty}
use agent_env.Base.Sort.{sort, In-of_sort, length-sort}
use agent_env.Session.Listing.{
  SessionListItem, SessionListOptions, candidate_loop, append_listed,
  list_sessions_from_candidate_ids, session_list_item, session_matches_list_options,
}
use agent_env.Session.Listing.Pages.{last_key, IsPage, collect, collect_rest}
use agent_env.Session.Listing.Full.{AreDistinct, IsName, page_at, cursor_lem}
use agent_env.Session.Listing.Ids.{sort-AreDistinct, itself, last_fresh}
use agent_env.Session.Listing.Chunks.{
  candidate_items, listed_candidates, candidate_loop-IsChunk, started,
}
use mathlib.Core.List.{append_assoc}

listed_candidates-cursor :
    (get : Text → Option SessionListItem) (opts : SessionListOptions) (cursor : Text)
    (ids : List Text)
    → listed_candidates get (record opts { cursor = cursor }) ids ≡ listed_candidates get opts ids
unfolding listed_candidates candidate_items append_listed session_list_item
    session_matches_list_options
listed_candidates-cursor get opts cursor [] = refl
listed_candidates-cursor get opts cursor (id ∷ ids) =
    ap (λ t. candidate_items get opts id ++ t) (listed_candidates-cursor get opts cursor ids)

listed_candidates-append :
    (get : Text → Option SessionListItem) (opts : SessionListOptions) (xs ys : List Text)
    → listed_candidates get opts (xs ++ ys)
      ≡ listed_candidates get opts xs ++ listed_candidates get opts ys
unfolding listed_candidates
listed_candidates-append get opts [] ys = refl
listed_candidates-append get opts (x ∷ xs) ys =
    ap (λ t. candidate_items get opts x ++ t) (listed_candidates-append get opts xs ys)
    ∙ sym (
        append_assoc (candidate_items get opts x) (listed_candidates get opts xs)
          (listed_candidates get opts ys))

placed :
    (get : Text → Option SessionListItem) (ids : List Text) (opts : SessionListOptions)
    → AreDistinct (sort text_lt ids)
    → All IsName (sort text_lt ids)
    → (pre post : List Text) → sort text_lt ids ≡ pre ++ post
    → list_sessions_from_candidate_ids get ids (record opts { cursor = last_key itself pre })
      ≡ candidate_loop get
          (record opts { cursor = last_key itself pre })
          (last_key itself pre)
          (last_key itself pre)
          true
          post
          []
unfolding list_sessions_from_candidate_ids
placed get ids opts d n pre post e =
    let n' = subst (All IsName) e n in
    let opts' = record opts { cursor = last_key itself pre } in
    ap (λ t. candidate_loop get opts' t [] (is_empty t) (sort text_lt ids) [])
      (cursor_lem itself pre post n')
    ∙ ap
        (λ t.
          candidate_loop get opts' (last_key itself pre) [] (is_empty (last_key itself pre)) t [])
        e
    ∙ started get opts' pre post n' (subst AreDistinct e d)

candidates-IsPage :
    (get : Text → Option SessionListItem) (ids : List Text) (opts : SessionListOptions)
    → AreDistinct (sort text_lt ids)
    → All IsName (sort text_lt ids)
    → (pre post : List Text) → sort text_lt ids ≡ pre ++ post
    → IsPage itself
        (listed_candidates get opts)
        post
        (page_at (list_sessions_from_candidate_ids get ids) opts (last_key itself pre))
candidates-IsPage get ids opts d n pre post e =
    let k = last_key itself pre in
    let opts' = record opts { cursor = k } in
    let fresh = last_fresh pre post (subst (All IsName) e n) (subst AreDistinct e d) in
    subst (λ r. IsPage itself (listed_candidates get opts) post (r.items, r.next_cursor))
      (sym (placed get ids opts d n pre post e))
      (subst
        (λ f. IsPage itself f post (
          (candidate_loop get opts' k k true post []).items,
          (candidate_loop get opts' k k true post []).next_cursor,
        ))
        (fun_ext (listed_candidates-cursor get opts k))
        (candidate_loop-IsChunk get opts' k k post [] fresh.0 fresh.1))

-- Where an index names distinct ids, not empty and without spaces at their ends, following the
-- cursors gives, whatever the limit, exactly the sessions of its ids that the store has and the
-- filters let through, each once and in the order of the ids, in at most one request more than
-- there are ids.
pub list_sessions_from_candidate_ids_complete :
    (get : Text → Option SessionListItem) (ids : List Text) (opts : SessionListOptions)
    → AreDistinct ids
    → All IsName ids
    → collect (page_at (list_sessions_from_candidate_ids get ids) opts) (suc (length ids)) []
      ≡ some (listed_candidates get opts (sort text_lt ids))
list_sessions_from_candidate_ids_complete get ids opts d n =
    let d' = sort-AreDistinct ids d in
    let n' =
      All-of_In IsName (sort text_lt ids)
        (λ a i. All-In IsName ids a n (In-of_sort text_lt a ids i)) in
    collect_rest itself (listed_candidates get opts)
      (page_at (list_sessions_from_candidate_ids get ids) opts) (sort text_lt ids)
      (λ x i. (All-In IsName (sort text_lt ids) x n' i).0) (listed_candidates-append get opts)
      (candidates-IsPage get ids opts d' n') (suc (length ids)) [] (sort text_lt ids) refl
      (omega (arith, length-sort text_lt ids))
