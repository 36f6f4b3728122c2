-- ===== src/Session/Listing/Pages.antt =====
-- Following the cursors of a paged listing.
use agent_env.Base.{
  ℕ, zero, suc, ◌<◌, ◌≡◌, refl, sym, ap, subst, ◌∙◌, false, if◌then◌else◌, Option, none, some, List,
  [], ◌∷◌, ◌++◌, inl, inr, ◌⊎◌, length, arith, In, length-append,
}
use agent_env.Base.Text.{Text, is_empty}
use mathlib.Core.List.{append_assoc}

-- The key of the last entry, or the empty text, which is no entry's key.
abbrev pub last_key : {A : Type 0} → (A → Text) → List A → Text
last_key key [] = []
last_key key (x ∷ []) = key x
last_key key (x ∷ y ∷ ys) = last_key key (y ∷ ys)

pub last_key-append :
    {A : Type 0} (key : A → Text) (pre mid : List A)
    → 0 < length mid
    → last_key key (pre ++ mid) ≡ last_key key mid
last_key-append key [] mid h = refl
last_key-append key (x ∷ []) [] h = absurd (omega arith)
last_key-append key (x ∷ []) (y ∷ ys) h = refl
last_key-append key (x ∷ z ∷ zs) mid h = last_key-append key (z ∷ zs) mid h

-- The page after a place: the whole rest, or a part of it that is not empty and the key of its end.
abbrev pub IsPage :
    {A B : Type 0} → (A → Text) → (List A → List B) → List A → List B × Text → Type 0
IsPage {A} key out post r =
    ((r.0 ≡ out post) × (r.1 ≡ []))
    ⊎ ((mid : List A) × (rest : List A) × (post ≡ mid ++ rest)
        × (0 < length mid)
        × (r.0 ≡ out mid)
        × (r.1 ≡ last_key key mid))

-- The pages from a cursor on, until one has no next cursor.
unfoldable pub collect : {B : Type 0} → (Text → List B × Text) → ℕ → Text → Option (List B)
collect page zero cursor = none
collect page (suc n) cursor =
    let p = page cursor in
    let rest = collect page n p.1 in
    if is_empty p.1 then some p.0 else elim rest [ none ↦ none | some later ↦ some (p.0 ++ later) ]

module _ {A B : Type 0} (key : A → Text) (out : List A → List B) (page : Text → List B × Text)
    (all : List A) (named : (x : A) → In x all → is_empty (key x) ≡ false)
    (out-append : (xs ys : List A) → out (xs ++ ys) ≡ out xs ++ out ys)
    (pages : (pre post : List A)
      → all ≡ pre ++ post
      → IsPage key out post (page (last_key key pre))) where
  last_key_in : (mid : List A) → 0 < length mid → (x : A) × In x mid × (last_key key mid ≡ key x)
  last_key_in [] h = absurd (omega arith)
  last_key_in (x ∷ []) h = (x, inl refl, refl)
  last_key_in (x ∷ y ∷ ys) h = let (z, i, e) = last_key_in (y ∷ ys) (omega arith) in (z, inr i, e)

  In-append_left : (x : A) (xs ys : List A) → In x xs → In x (xs ++ ys)
  In-append_left x [] ys i = elim i [ ]
  In-append_left x (z ∷ zs) ys i = elim i [ inl e ↦ inl e | inr j ↦ inr (In-append_left x zs ys j) ]

  In-append_right : (x : A) (xs ys : List A) → In x ys → In x (xs ++ ys)
  In-append_right x [] ys i = i
  In-append_right x (z ∷ zs) ys i = inr (In-append_right x zs ys i)

  key_there :
      (pre mid rest : List A)
      → all ≡ pre ++ (mid ++ rest)
      → 0 < length mid
      → is_empty (last_key key mid) ≡ false
  key_there pre mid rest e l =
      let (x, i, k) = last_key_in mid l in
      ap is_empty k
      ∙ named x
          (subst (In x) (sym e) (In-append_right x pre (mid ++ rest) (In-append_left x mid rest i)))

  -- Enough requests give the rest of the listing, each entry once and in order.
  pub collect_rest :
      (n : ℕ) (pre post : List A)
      → all ≡ pre ++ post
      → length post < n
      → collect page n (last_key key pre) ≡ some (out post)
  unfolding collect
  collect_rest zero pre post e h = absurd (omega arith)
  collect_rest (suc n) pre post e h = elim (pages pre post e) [
    | inl (p, q) ↦ rw (q, p) refl
    | inr (mid, rest, s, l, p, q) ↦
        let later =
          collect_rest n (pre ++ mid) rest
            (e ∙ ap (λ t. pre ++ t) s ∙ sym (append_assoc pre mid rest))
            (omega (arith, ap length s, length-append mid rest)) in
        rw (q, p)
          (rw (key_there pre mid rest (e ∙ ap (λ t. pre ++ t) s) l) (
            rw (sym (last_key-append key pre mid l)) (
              rw later
                (ap some (ap (λ t. t ++ out rest) p ∙ sym (ap out s ∙ out-append mid rest))))))
  ]
