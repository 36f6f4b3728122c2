-- ===== src/Session/Listing/Chunks.antt =====
-- The loop of listSessionsFromCandidateIDs, from one id on.
use agent_env.Base.{
  ◌≡◌, refl, ap, ◌∙◌, false, Option, none, some, List, [], ◌∷◌, ◌++◌, ◌==◌, arith, Option-cases,
  inr, ◌⊎◌, inl, sym, true, ◌<◌, length, Bool-cases, subst, ltb, ◌&&◌, leb, All, Bool,
  if◌then◌else◌,
}
use agent_env.Base.Text.{Text, Text_eq, is_empty}
use agent_env.Base.Sets.{contains}
use agent_env.Session.Listing.{
  SessionListItem, SessionListOptions, SessionListPage, candidate_loop, page_limit, append_listed,
  session_list_item,
}
use agent_env.Session.Listing.Pages.{last_key, last_key-append}
use agent_env.Session.Listing.Full.{AreDistinct, IsName, early_key, last-IsName}
use agent_env.Session.Listing.Ids.{itself, map-itself, no_empty}
use mathlib.Core.List.{append_assoc, append-nil}

-- The sessions of the ids that the filters let through.
unfoldable pub candidate_items :
    (Text → Option SessionListItem) → SessionListOptions → Text → List SessionListItem
unfolding append_listed
candidate_items get opts id = elim (get id) [ none ↦ [] | some s ↦ append_listed opts s [] ]

unfoldable pub listed_candidates :
    (Text → Option SessionListItem) → SessionListOptions → List Text → List SessionListItem
unfolding candidate_items
listed_candidates get opts [] = []
listed_candidates get opts (id ∷ ids) =
    candidate_items get opts id ++ listed_candidates get opts ids

-- What the loop makes of the rest of the ids, after the items that it holds.
abbrev pub IsChunk :
    (Text → Option SessionListItem)
    → SessionListOptions
    → List SessionListItem
    → List Text
    → SessionListPage
    → Type 0
IsChunk get opts acc post r =
    ((r.items ≡ acc ++ listed_candidates get opts post) × (r.next_cursor ≡ []))
    ⊎ ((mid : List Text) × (rest : List Text) × (post ≡ mid ++ rest)
        × (0 < length mid)
        × (r.items ≡ acc ++ listed_candidates get opts mid)
        × (r.next_cursor ≡ last_key itself mid))

module _ (get : Text → Option SessionListItem) (opts : SessionListOptions) where
  longer-IsChunk :
      (acc longer : List SessionListItem) (id : Text) (ids : List Text) (r : SessionListPage)
      → longer ≡ acc ++ candidate_items get opts id
      → IsChunk get opts longer ids r
      → IsChunk get opts acc (id ∷ ids) r
  unfolding listed_candidates
  longer-IsChunk acc longer id ids r e (inl (p, q)) = inl (
    p
        ∙ ap (λ t. t ++ listed_candidates get opts ids) e
        ∙ append_assoc acc (candidate_items get opts id) (listed_candidates get opts ids),
    q,
  )
  longer-IsChunk acc longer id ids r e (inr (mid, rest, s, l, p, q)) = inr (
    id ∷ mid,
    rest,
    ap (λ t. id ∷ t) s,
    omega arith,
    p
        ∙ ap (λ t. t ++ listed_candidates get opts mid) e
        ∙ append_assoc acc (candidate_items get opts id) (listed_candidates get opts mid),
    q ∙ sym (last_key-append itself (id ∷ []) mid l),
  )

  append_listed_lem :
      (s : SessionListItem) (acc : List SessionListItem)
      → append_listed opts s acc ≡ acc ++ append_listed opts s []
  unfolding append_listed
  append_listed_lem s acc = elim (Option-cases (session_list_item opts s)) [
    | inl e ↦ rw (e, append_listed) (sym (append-nil acc))
    | inr (x, e) ↦ rw (e, append_listed) refl
  ]

  known :
      (id : Text) (s : SessionListItem) (acc : List SessionListItem)
      → get id ≡ some s
      → append_listed opts s acc ≡ acc ++ candidate_items get opts id
  unfolding candidate_items
  known id s acc e = rw (e, candidate_items) (append_listed_lem s acc)

  unknown : (id : Text) → get id ≡ none → candidate_items get opts id ≡ []
  unfolding candidate_items
  unknown id e = rw (e, candidate_items) refl

  -- One id alone ends a page.
  one-IsChunk :
      (acc longer : List SessionListItem) (id : Text) (ids : List Text)
      → longer ≡ acc ++ candidate_items get opts id
      → IsChunk get opts acc (id ∷ ids) (record { items = longer; next_cursor = id })
  unfolding listed_candidates
  one-IsChunk acc longer id ids e = inr (
    id ∷ [],
    ids,
    refl,
    omega arith,
    e ∙ ap (λ t. acc ++ t) (sym (append-nil (candidate_items get opts id))),
    refl,
  )

  pub candidate_loop-IsChunk :
      (cursor last : Text) (post : List Text) (acc : List SessionListItem)
      → contains last post ≡ false
      → AreDistinct post
      → IsChunk get opts acc post (candidate_loop get opts cursor last true post acc)
  unfolding candidate_loop listed_candidates contains
  candidate_loop-IsChunk cursor last [] acc h d = inl (sym (append-nil acc), refl)
  candidate_loop-IsChunk cursor last (id ∷ ids) acc h d =
      let fresh : (id == last) ≡ false = ground arith in
      let skip = candidate_loop-IsChunk cursor id ids acc d.0 d.1 in
      rw fresh (elim (Option-cases (get id)) [
        | inl e ↦ rw e (
            longer-IsChunk acc acc id ids _
              (sym (append-nil acc) ∙ ap (λ t. acc ++ t) (sym (unknown id e))) skip)
        | inr (s, e) ↦
            let longer = append_listed opts s acc in
            rw e
              (elim (Bool-cases
                (ltb 0 (page_limit opts) && leb (page_limit opts) (length longer))) [
                  | inl t ↦ rw t (one-IsChunk acc longer id ids (known id s acc e))
                  | inr f ↦ rw f (
                      longer-IsChunk acc longer id ids _ (known id s acc e)
                        (candidate_loop-IsChunk cursor id ids longer d.0 d.1))
                ])
      ])

  same : {b c d : Bool} → b ≡ false → c ≡ d → (if b then false else c) ≡ d
  same {c = c} e f = rw e f

  skipped :
      (last id : Text) (pre post : List Text)
      → contains last (id ∷ pre ++ post) ≡ false
      → AreDistinct (id ∷ pre ++ post)
      → candidate_loop get opts (last_key itself (id ∷ pre)) last false (id ∷ pre ++ post) []
        ≡ candidate_loop get opts
            (last_key itself (id ∷ pre))
            (last_key itself (id ∷ pre))
            true
            post
            []
  unfolding candidate_loop contains
  skipped last id [] post h d =
      let fresh : (id == last) ≡ false = ground arith in
      ap (λ b. candidate_loop get opts id id b post [])
        (same fresh ((Text_eq.equals_iff id id).1 refl))
  skipped last id (y ∷ ys) post h d =
      let fresh : (id == last) ≡ false = ground arith in
      ap (λ b. candidate_loop get opts (last_key itself (y ∷ ys)) id b (y ∷ ys ++ post) [])
        (same fresh (
          early_key itself id y ys post
            (subst AreDistinct (sym (map-itself (id ∷ y ∷ ys ++ post))) d)))
      ∙ skipped id y ys post d.0 d.1

  pub started :
      (pre post : List Text)
      → All IsName (pre ++ post)
      → AreDistinct (pre ++ post)
      → candidate_loop get opts
          (last_key itself pre)
          []
          (is_empty (last_key itself pre))
          (pre ++ post)
          []
        ≡ candidate_loop get opts (last_key itself pre) (last_key itself pre) true post []
  started [] post n d = refl
  started (id ∷ pre) post n d =
      ap (λ b. candidate_loop get opts (last_key itself (id ∷ pre)) [] b (id ∷ pre ++ post) [])
        (last-IsName itself id pre post n).0
      ∙ skipped [] id pre post (no_empty (id ∷ pre ++ post) n) d
