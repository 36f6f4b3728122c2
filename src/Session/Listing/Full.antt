-- ===== src/Session/Listing/Full.antt =====
-- The pages of pageSessionItems over one listing.
use agent_env.Base.{
  ℕ, suc, ◌<◌, ◌≡◌, refl, sym, ap, subst, ◌∙◌, true, false, ◌&&◌, some, List, [], ◌∷◌, ◌++◌, map,
  ◌==◌, inl, inr, ◌⊎◌, length, arith, Bool-cases, All, All-In, ltb, leb,
}
use agent_env.Base.Text.{Text, Text_eq, is_empty, trim_space}
use agent_env.Base.Sets.{contains}
use agent_env.Session.Listing.{
  SessionListItem, SessionListOptions, SessionListPage, page_loop, page_limit, page_session_items,
  last_id,
}
use agent_env.Session.Listing.Pages.{last_key, IsPage, collect, collect_rest}
use mathlib.Core.List.{append_assoc, append-nil}

-- No text stands twice.
abbrev pub AreDistinct : List Text → Type 0
AreDistinct [] = Unit {0}
AreDistinct (x ∷ xs) = (contains x xs ≡ false) × AreDistinct xs

-- An id that a cursor can carry.
abbrev pub IsName : Text → Type 0
IsName id = (is_empty id ≡ false) × (trim_space id ≡ id)

abbrev pub id_of : SessionListItem → Text
id_of s = s.id

-- The page that a cursor asks for, and the cursor of the next one.
abbrev pub page_at :
    (SessionListOptions → SessionListPage) → SessionListOptions → Text → List SessionListItem × Text
page_at list opts cursor =
    let p = list (record opts { cursor = cursor }) in (p.items, p.next_cursor)

not_there :
    (x y : Text) (xs : List Text) → contains x xs ≡ false → contains y xs ≡ true → (x == y) ≡ false
not_there x y xs h k = elim (Bool-cases (x == y)) [
  | inl e ↦
      absurd (cc (h, subst (λ t. contains t xs ≡ true) (sym ((Text_eq.equals_iff x y).0 e)) k))
  | inr f ↦ f
]

pub last_there :
    {A : Type 0} (key : A → Text) (x : A) (xs ys : List A)
    → contains (last_key key (x ∷ xs)) (map key (x ∷ xs ++ ys)) ≡ true
unfolding contains
last_there key x [] ys = ground (arith, Text_eq.equals_iff (key x) (key x))
last_there key x (z ∷ zs) ys = ground (arith, last_there key z zs ys)

-- Before the cursor's entry nothing has the cursor as its key.
pub early_key :
    {A : Type 0} (key : A → Text) (x y : A) (ys post : List A)
    → AreDistinct (map key (x ∷ y ∷ ys ++ post))
    → (key x == last_key key (x ∷ y ∷ ys)) ≡ false
early_key key x y ys post d =
    not_there (key x) (last_key key (y ∷ ys)) (map key (y ∷ ys ++ post)) d.0
      (last_there key y ys post)

skipped :
    (limit : ℕ) (x : SessionListItem) (pre post : List SessionListItem)
    → AreDistinct (map id_of (x ∷ pre ++ post))
    → page_loop limit (last_key id_of (x ∷ pre)) false (x ∷ pre ++ post) []
      ≡ page_loop limit (last_key id_of (x ∷ pre)) true post []
unfolding page_loop
skipped limit x [] post d =
    ap (λ b. page_loop limit x.id b post []) ((Text_eq.equals_iff x.id x.id).1 refl)
skipped limit x (y ∷ ys) post d =
    ap (λ b. page_loop limit (last_key id_of (y ∷ ys)) b (y ∷ ys ++ post) [])
      (early_key id_of x y ys post d)
    ∙ skipped limit y ys post d.1

last_id_lem : (xs : List SessionListItem) → last_id xs ≡ last_key id_of xs
unfolding last_id
last_id_lem [] = refl
last_id_lem (x ∷ []) = refl
last_id_lem (x ∷ y ∷ ys) = last_id_lem (y ∷ ys)

-- What the loop makes of the rest of the entries, after some that it holds.
abbrev IsChunk : List SessionListItem → List SessionListItem → SessionListPage → Type 0
IsChunk acc post r =
    ((r.items ≡ acc ++ post) × (r.next_cursor ≡ []))
    ⊎ ((mid : List SessionListItem) × (rest : List SessionListItem) × (post ≡ mid ++ rest)
        × (0 < length (acc ++ mid))
        × (r.items ≡ acc ++ mid)
        × (r.next_cursor ≡ last_key id_of (acc ++ mid)))

longer-IsChunk :
    (acc : List SessionListItem) (x : SessionListItem) (post : List SessionListItem)
    (r : SessionListPage)
    → IsChunk (acc ++ x ∷ []) post r
    → IsChunk acc (x ∷ post) r
longer-IsChunk acc x post r (inl (p, q)) = inl (p ∙ append_assoc acc (x ∷ []) post, q)
longer-IsChunk acc x post r (inr (mid, rest, s, l, p, q)) =
    let e = append_assoc acc (x ∷ []) mid in
    inr (
      x ∷ mid,
      rest,
      ap (λ t. x ∷ t) s,
      subst (λ t. 0 < length t) e l,
      p ∙ e,
      q ∙ ap (last_key id_of) e,
    )

full_page :
    (limit : ℕ) (acc : List SessionListItem)
    → (ltb 0 limit && leb limit (length acc)) ≡ true
    → 0 < length acc
full_page limit acc t = ground arith

page_loop-IsChunk :
    (limit : ℕ) (cursor : Text) (post acc : List SessionListItem)
    → IsChunk acc post (page_loop limit cursor true post acc)
unfolding page_loop
page_loop-IsChunk limit cursor [] acc = inl (sym (append-nil acc), refl)
page_loop-IsChunk limit cursor (x ∷ xs) acc =
    elim (Bool-cases (ltb 0 limit && leb limit (length acc))) [
      | inl t ↦ rw t (
          inr (
            [],
            x ∷ xs,
            refl,
            omega (arith, ap length (append-nil acc), full_page limit acc t),
            sym (append-nil acc),
            last_id_lem acc ∙ ap (last_key id_of) (sym (append-nil acc)),
          ))
      | inr f ↦ rw f (longer-IsChunk acc x xs _ (page_loop-IsChunk limit cursor xs (acc ++ x ∷ [])))
    ]

pub last-IsName :
    {A : Type 0} (key : A → Text) (x : A) (xs ys : List A)
    → All (λ s. IsName (key s)) (x ∷ xs ++ ys)
    → IsName (last_key key (x ∷ xs))
last-IsName key x [] ys n = n.0
last-IsName key x (z ∷ zs) ys n = last-IsName key z zs ys n.1

-- A cursor is read as it was handed out.
pub cursor_lem :
    {A : Type 0} (key : A → Text) (pre post : List A)
    → All (λ s. IsName (key s)) (pre ++ post)
    → trim_space (last_key key pre) ≡ last_key key pre
unfolding trim_space
cursor_lem key [] post n = refl
cursor_lem key (x ∷ pre) post n = (last-IsName key x pre post n).1

started :
    (limit : ℕ) (pre post : List SessionListItem)
    → AreDistinct (map id_of (pre ++ post))
    → All (λ s. IsName s.id) (pre ++ post)
    → page_loop limit (last_key id_of pre) (is_empty (last_key id_of pre)) (pre ++ post) []
      ≡ page_loop limit (last_key id_of pre) true post []
started limit [] post d n = refl
started limit (x ∷ pre) post d n =
    ap (λ b. page_loop limit (last_key id_of (x ∷ pre)) b (x ∷ pre ++ post) [])
      (last-IsName id_of x pre post n).0
    ∙ skipped limit x pre post d

placed :
    (items : List SessionListItem) (opts : SessionListOptions)
    → AreDistinct (map id_of items)
    → All (λ s. IsName s.id) items
    → (pre post : List SessionListItem) → items ≡ pre ++ post
    → page_session_items items (record opts { cursor = last_key id_of pre })
      ≡ page_loop (page_limit opts) (last_key id_of pre) true post []
unfolding page_session_items page_limit
placed items opts d n pre post e =
    let limit = page_limit opts in
    let n' = subst (All (λ s. IsName s.id)) e n in
    ap (λ t. page_loop limit t (is_empty t) items []) (cursor_lem id_of pre post n')
    ∙ ap (λ t. page_loop limit (last_key id_of pre) (is_empty (last_key id_of pre)) t []) e
    ∙ started limit pre post (subst (λ t. AreDistinct (map id_of t)) e d) n'

page_session_items-IsPage :
    (items : List SessionListItem) (opts : SessionListOptions)
    → AreDistinct (map id_of items)
    → All (λ s. IsName s.id) items
    → (pre post : List SessionListItem) → items ≡ pre ++ post
    → IsPage id_of (λ xs. xs) post (page_at (page_session_items items) opts (last_key id_of pre))
page_session_items-IsPage items opts d n pre post e =
    let limit = page_limit opts in
    subst (λ r. IsPage id_of (λ xs. xs) post (r.items, r.next_cursor))
      (sym (placed items opts d n pre post e))
      (page_loop-IsChunk limit (last_key id_of pre) post [])

-- Whatever the limit of a page, following the cursors of a listing gives the whole listing, each
-- entry once and in order, in at most one request more than it has entries. Its ids are distinct,
-- not empty and without spaces at their ends.
pub page_session_items_complete :
    (items : List SessionListItem) (opts : SessionListOptions)
    → AreDistinct (map id_of items)
    → All (λ s. IsName s.id) items
    → collect (page_at (page_session_items items) opts) (suc (length items)) [] ≡ some items
page_session_items_complete items opts d n =
    collect_rest id_of (λ xs. xs) (page_at (page_session_items items) opts) items
      (λ x i. (All-In (λ s. IsName s.id) items x n i).0) (λ xs ys. refl)
      (page_session_items-IsPage items opts d n) (suc (length items)) [] items refl (omega arith)
