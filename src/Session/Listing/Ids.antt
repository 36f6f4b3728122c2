-- ===== src/Session/Listing/Ids.antt =====
-- The ids of a listing, sorted, and the cursors among them.
use agent_env.Base.{
  ◌≡◌, refl, ap, ◌∙◌, false, ◌||◌, Option, none, some, List, [], ◌∷◌, ◌++◌, map, ◌==◌, arith,
  Option-cases, inr, ◌⊎◌, inl, sym, true, ◌<◌, length, Bool-cases, subst, ltb, ◌&&◌, leb, All, Bool,
  if◌then◌else◌, fun_ext, suc, All-of_In, All-In,
}
use agent_env.Base.Text.{Text, Text_eq, text_lt, is_empty}
use agent_env.Base.Sets.{contains}
use agent_env.Base.Sort.{place, sort}
use agent_env.Session.Listing.Pages.{last_key}
use agent_env.Session.Listing.Full.{AreDistinct, IsName}

contains-place :
    (y x : Text) (xs : List Text) → contains y (place text_lt x xs) ≡ (x == y || contains y xs)
unfolding contains place
contains-place y x [] = refl
contains-place y x (z ∷ zs) = ground (arith, contains-place y x zs)

contains-sort : (y : Text) (xs : List Text) → contains y (sort text_lt xs) ≡ contains y xs
unfolding contains sort
contains-sort y [] = refl
contains-sort y (x ∷ xs) =
    contains-place y x (sort text_lt xs) ∙ ap (λ b. x == y || b) (contains-sort y xs)

place-AreDistinct :
    (x : Text) (xs : List Text)
    → contains x xs ≡ false
    → AreDistinct xs
    → AreDistinct (place text_lt x xs)
unfolding contains place
place-AreDistinct x [] h d = ground arith
place-AreDistinct x (z ∷ zs) h d = ground (
  arith,
  contains-place z x zs,
  Text_eq.equals_iff x z,
  Text_eq.equals_iff z x,
  place-AreDistinct x zs,
)

pub sort-AreDistinct : (xs : List Text) → AreDistinct xs → AreDistinct (sort text_lt xs)
unfolding sort
sort-AreDistinct [] d = tt
sort-AreDistinct (x ∷ xs) d =
    place-AreDistinct x (sort text_lt xs) (contains-sort x xs ∙ d.0) (sort-AreDistinct xs d.1)

abbrev pub itself : Text → Text
itself id = id

pub no_empty : (ids : List Text) → All IsName ids → contains [] ids ≡ false
unfolding contains agent_env.Base.Text.text_eq
no_empty [] n = refl
no_empty ([] ∷ ids) n = absurd (ground (arith, n.0.0))
no_empty ((c ∷ cs) ∷ ids) n = no_empty ids n.1

-- A cursor is not the id of an entry that comes after it.
pub last_fresh :
    (pre post : List Text)
    → All IsName (pre ++ post)
    → AreDistinct (pre ++ post)
    → (contains (last_key itself pre) post ≡ false) × AreDistinct post
last_fresh [] post n d = (no_empty post n, d)
last_fresh (x ∷ []) post n d = d
last_fresh (x ∷ y ∷ ys) post n d = last_fresh (y ∷ ys) post n.1 d.1

pub map-itself : (xs : List Text) → map itself xs ≡ xs
map-itself [] = refl
map-itself (x ∷ xs) = ap (λ t. x ∷ t) (map-itself xs)
