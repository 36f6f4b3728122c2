-- ===== src/Base/Sort.antt =====
-- `sort.SliceStable` with the caller's `less`: the items in order, equal ones as they stood.
-- Any stable sort returns this list where `less` is a strict weak order, so insertion stands for it.
use agent_env.Base.Tests.{if◌then◌else◌, Bool-cases}
use agent_env.Base.Lists.{select, In, All, All-In, All-of_In, length}
use Prim.Native.Nat.{suc}
use mathlib.Core.Path.{◌≡◌, refl, ap, ap₂, ◌∙◌}
use mathlib.Core.Logic.{◌⊎◌, inl, inr}
use mathlib.Core.Bool.{Bool, true, false}
use mathlib.Core.List.{List, [], ◌∷◌, Perm, Permᴰ}
use mathlib.Core.List.Perm
use native.Mathlib.Omega.{arith}

module _ {A : Type 0} (less : A → A → Bool) where
  unfoldable pub place : A → List A → List A
  place x [] = x ∷ []
  place x (y ∷ ys) = let rest = place x ys in if less y x then y ∷ rest else x ∷ y ∷ ys

  unfoldable pub sort : List A → List A
  unfolding place
  sort [] = []
  sort (x ∷ xs) = place x (sort xs)

  place-perm : (x : A) (xs : List A) → Perm (place x xs) (x ∷ xs)
  unfolding place
  place-perm x [] = Perm.refl (x ∷ [])
  place-perm x (y ∷ ys) = elim (Bool-cases (less y x)) [
    | inl t ↦ rw t (Perm.trans (Perm.cons y (place-perm x ys)) (Perm.swap x y ys))
    | inr f ↦ rw f (Perm.refl _)
  ]

  pub sort-perm : (xs : List A) → Perm (sort xs) xs
  unfolding sort
  sort-perm [] = Perm.refl []
  sort-perm (x ∷ xs) = Perm.trans (place-perm x (sort xs)) (Perm.cons x (sort-perm xs))

  place-In : (a x : A) (xs : List A) → In a (place x xs) → (a ≡ x) ⊎ In a xs
  unfolding place
  place-In a x [] h = h
  place-In a x (y ∷ ys) h = ground (arith, place-In a x ys)

  In-place : (a x : A) (xs : List A) → (a ≡ x) ⊎ In a xs → In a (place x xs)
  unfolding place
  In-place a x [] h = h
  In-place a x (y ∷ ys) h = ground (arith, In-place a x ys)

  pub In-of_sort : (a : A) (xs : List A) → In a (sort xs) → In a xs
  unfolding sort
  In-of_sort a [] h = h
  In-of_sort a (x ∷ xs) h = ground (arith, place-In a x (sort xs) h, In-of_sort a xs)

  pub In-sort : (a : A) (xs : List A) → In a xs → In a (sort xs)
  unfolding sort
  In-sort a [] h = h
  In-sort a (x ∷ xs) h = In-place a x (sort xs) (ground (arith, In-sort a xs))

  pub length-place : (x : A) (xs : List A) → length (place x xs) ≡ suc (length xs)
  unfolding place
  length-place x [] = refl
  length-place x (y ∷ ys) = ground (arith, length-place x ys)

  pub length-sort : (xs : List A) → length (sort xs) ≡ length xs
  unfolding sort
  length-sort [] = refl
  length-sort (x ∷ xs) = length-place x (sort xs) ∙ ap suc (length-sort xs)

-- What `sort` asks of its `less`: a strict weak order.
pub record IsOrder {A : Type 0} (less : A → A → Bool) : Type 0 where
  pub irrefl : (a : A) → less a a ≡ false
  pub trans : (a b c : A) → less a b ≡ true → less b c ≡ true → less a c ≡ true
  pub cotrans : (a b c : A) → less b a ≡ false → less c b ≡ false → less c a ≡ false

-- No later item comes before an earlier one.
abbrev pub IsSorted : {A : Type 0} → (A → A → Bool) → List A → Type 0
IsSorted less [] = Unit {0}
IsSorted less (x ∷ xs) = All (λ y. less y x ≡ false) xs × IsSorted less xs

module _ {A : Type 0} (less : A → A → Bool) (o : IsOrder less) where
  asym : (a b : A) → less a b ≡ true → less b a ≡ false
  asym a b h = ground (arith, Bool-cases (less b a), o.trans a b a h, o.irrefl a)

  place-IsSorted : (x : A) (xs : List A) → IsSorted less xs → IsSorted less (place less x xs)
  unfolding place
  place-IsSorted x [] h = (tt, tt)
  place-IsSorted x (y ∷ ys) h = elim (Bool-cases (less y x)) [
    | inl t ↦ rw t (
      All-of_In _ _ (λ a i. elim (place-In less a x ys i) [
        | inl e ↦ rw e (asym y x t)
        | inr j ↦ All-In _ ys a h.0 j
      ]),
      place-IsSorted x ys h.1,
    )
    | inr f ↦ rw f ((f, All-of_In _ ys (λ a i. o.cotrans x y a f (All-In _ ys a h.0 i))), h)
  ]

  pub sort-IsSorted : (xs : List A) → IsSorted less (sort less xs)
  unfolding sort
  sort-IsSorted [] = tt
  sort-IsSorted (x ∷ xs) = place-IsSorted x (sort less xs) (sort-IsSorted xs)

  -- Items that are told apart are ordered, so their places do not depend on who comes first.
  place_comm :
      (x y : A) (s : List A)
      → (less x y ≡ false → less y x ≡ false → x ≡ y)
      → place less x (place less y s) ≡ place less y (place less x s)
  unfolding place
  place_comm x y [] t = ground (arith, asym x y, asym y x)
  place_comm x y (z ∷ s) t = ground (
    arith,
    asym x y,
    asym y x,
    o.trans z x y,
    o.trans z y x,
    o.trans x y z,
    o.trans y x z,
    o.cotrans x z y,
    o.cotrans y z x,
    o.cotrans z y x,
    o.cotrans z x y,
    place_comm x y s t,
  )

Permᴰ_refl : {A : Type 0} (xs : List A) → Permᴰ xs xs
Permᴰ_refl [] = Permᴰ.nil
Permᴰ_refl (x ∷ xs) = Permᴰ.cons refl (Permᴰ_refl xs)

-- A rearrangement holds the same items.
pub Permᴰ-In : {A : Type 0} {xs ys : List A} (a : A) → Permᴰ xs ys → In a ys → In a xs
Permᴰ-In a Permᴰ.nil i = i
Permᴰ-In a (Permᴰ.cons e p) i = ground (arith, Permᴰ-In a p)
Permᴰ-In a (Permᴰ.swap e f) i = ground arith
Permᴰ-In a (Permᴰ.trans p q) i = Permᴰ-In a p (Permᴰ-In a q i)

-- Items that `less` does not order are one item.
abbrev pub TellsApart : {A : Type 0} → (A → A → Bool) → List A → Type 0
TellsApart {A} less xs = (a b : A) → In a xs → In b xs → less a b ≡ false → less b a ≡ false → a ≡ b

-- The sorted list does not depend on the order of the list that is sorted.
pub sort-Permᴰ :
    {A : Type 0} (less : A → A → Bool) (o : IsOrder less) {xs ys : List A}
    → TellsApart less xs
    → Permᴰ xs ys
    → sort less xs ≡ sort less ys
unfolding sort
sort-Permᴰ less o t Permᴰ.nil = refl
sort-Permᴰ less o t (Permᴰ.cons e p) =
    ap₂ (place less) e (sort-Permᴰ less o (λ a b i j. t a b (inr i) (inr j)) p)
sort-Permᴰ less o t (Permᴰ.swap {a = x} {b = y} {l = l} e f) =
    place_comm less o x y (sort less l) (t x y (inl refl) (inr (inl refl))) ∙ rw (e, f)
sort-Permᴰ less o t (Permᴰ.trans p q) =
    sort-Permᴰ less o t p ∙ sort-Permᴰ less o (λ a b i j. t a b (Permᴰ-In a p i) (Permᴰ-In b p j)) q

-- First by one order, and by another where that leaves a tie.
abbrev pub lex : {A : Type 0} → (A → A → Bool) → (A → A → Bool) → A → A → Bool
lex lt₁ lt₂ a b = if lt₁ a b then true else if lt₁ b a then false else lt₂ a b

module _ {A : Type 0} (lt₁ lt₂ : A → A → Bool) (o₁ : IsOrder lt₁) (o₂ : IsOrder lt₂) where
  lex_trans : (a b c : A) → lex lt₁ lt₂ a b ≡ true → lex lt₁ lt₂ b c ≡ true → lex lt₁ lt₂ a c ≡ true
  lex_trans a b c h k = ground (
    arith,
    asym lt₁ o₁ a c,
    asym lt₁ o₁ b c,
    o₁.trans a b c,
    o₁.cotrans a b c,
    o₁.cotrans a c b,
    o₁.cotrans b a c,
    o₁.cotrans b c a,
    o₁.cotrans c a b,
    o₁.cotrans c b a,
    o₂.trans a b c,
  )

  lex_cotrans :
      (a b c : A) → lex lt₁ lt₂ b a ≡ false → lex lt₁ lt₂ c b ≡ false → lex lt₁ lt₂ c a ≡ false
  lex_cotrans a b c h k = ground (
    arith,
    asym lt₁ o₁ a c,
    asym lt₁ o₁ a b,
    asym lt₁ o₁ b c,
    o₁.trans a b c,
    o₁.cotrans a b c,
    o₁.cotrans a c b,
    o₁.cotrans b a c,
    o₁.cotrans b c a,
    o₁.cotrans c a b,
    o₁.cotrans c b a,
    o₂.cotrans a b c,
  )

  pub lex-IsOrder : IsOrder (lex lt₁ lt₂)
  lex-IsOrder = record {
    irrefl = λ a. ground (arith, o₁.irrefl a, o₂.irrefl a);
    trans = lex_trans;
    cotrans = lex_cotrans;
  }

-- An order of keys, carried over to the items that have them.
pub by-IsOrder :
    {A B : Type 0} (f : A → B) (lt : B → B → Bool) → IsOrder lt → IsOrder (λ a b. lt (f a) (f b))
by-IsOrder f lt o = record {
  irrefl = λ a. o.irrefl (f a);
  trans = λ a b c. o.trans (f a) (f b) (f c);
  cotrans = λ a b c. o.cotrans (f a) (f b) (f c);
}

pub select-Permᴰ :
    {A : Type 0} (p : A → Bool) {xs ys : List A} → Permᴰ xs ys → Permᴰ (select p xs) (select p ys)
select-Permᴰ p Permᴰ.nil = Permᴰ.nil
select-Permᴰ p (Permᴰ.cons {a = a} {b = b} {l₁ = xs} {l₂ = ys} e q) =
    kept (p a) (p b) (ap p e) (select-Permᴰ p q)
  where
    kept :
        (s t : Bool)
        → s ≡ t
        → Permᴰ (select p xs) (select p ys)
        → Permᴰ
            (if s then a ∷ select p xs else select p xs)
            (if t then b ∷ select p ys else select p ys)
    kept true true f r = Permᴰ.cons e r
    kept true false f r = cc
    kept false true f r = cc
    kept false false f r = r
select-Permᴰ p (Permᴰ.swap {a = a} {b = b} {a' = a'} {b' = b'} {l = l} e f) =
    kept (p a) (p b) (p a') (p b') (ap p e) (ap p f)
  where
    kept :
        (s t s' t' : Bool)
        → s ≡ t'
        → t ≡ s'
        → Permᴰ
            (if s
              then a ∷ (if t then b ∷ select p l else select p l)
              else (if t then b ∷ select p l else select p l))
            (if s'
              then a' ∷ (if t' then b' ∷ select p l else select p l)
              else (if t' then b' ∷ select p l else select p l))
    kept true true true true g h = Permᴰ.swap e f
    kept true false false true g h = Permᴰ.cons e (Permᴰ_refl _)
    kept false true true false g h = Permᴰ.cons f (Permᴰ_refl _)
    kept false false false false g h = Permᴰ_refl _
    kept true _ _ false g h = cc
    kept false _ _ true g h = cc
    kept _ true false _ g h = cc
    kept _ false true _ g h = cc
select-Permᴰ p (Permᴰ.trans q r) = Permᴰ.trans (select-Permᴰ p q) (select-Permᴰ p r)
