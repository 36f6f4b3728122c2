-- ===== src/Base/Lists.antt =====
-- Lists measured by native numbers, and the loops that filter and search them.
use Prim.Native.Nat.{ℕ, zero, suc, ◌+◌, min}
use mathlib.Core.Path.{◌≡◌, refl, sym, ap, subst}
use mathlib.Core.Logic.{◌⊎◌, inl, inr}
use mathlib.Core.Bool.{Bool, true}
use mathlib.Core.List.{List, [], ◌∷◌, ◌++◌, map}
use native.Mathlib.Omega.{arith}
use agent_env.Base.Tests.{if◌then◌else◌}

module _ {ℓ} {A : Type ℓ} where
  abbrev pub length : List A → ℕ
  length [] = 0
  length (x ∷ xs) = suc (length xs)

  abbrev pub take : ℕ → List A → List A
  take zero xs = []
  take (suc n) [] = []
  take (suc n) (x ∷ xs) = x ∷ take n xs

  pub length-append : (xs ys : List A) → length (xs ++ ys) ≡ length xs + length ys
  length-append [] ys = omega arith
  length-append (x ∷ xs) ys = omega (arith, length-append xs ys)

  pub length-take : (n : ℕ) (xs : List A) → length (take n xs) ≡ min n (length xs)
  length-take zero xs = omega arith
  length-take (suc n) [] = omega arith
  length-take (suc n) (x ∷ xs) = omega (arith, length-take n xs)

  -- `for … { if !keep { continue }; out = append(out, x) }`
  abbrev pub select : (A → Bool) → List A → List A
  select p [] = []
  select p (x ∷ xs) = let rest = select p xs in if p x then x ∷ rest else rest

module _ {A : Type 0} where
  -- The value stands in the list at some place.
  abbrev pub In : A → List A → Type 0
  In a [] = ⊥
  In a (x ∷ xs) = (a ≡ x) ⊎ In a xs

  abbrev pub All : (A → Type 0) → List A → Type 0
  All P [] = Unit
  All P (x ∷ xs) = P x × All P xs

  pub All-In : (P : A → Type 0) (xs : List A) (a : A) → All P xs → In a xs → P a
  All-In P [] a h i = elim i [ ]
  All-In P (x ∷ xs) a h i = elim i [ inl e ↦ subst P (sym e) h.0 | inr j ↦ All-In P xs a h.1 j ]

  pub All-of_In : (P : A → Type 0) (xs : List A) → ((a : A) → In a xs → P a) → All P xs
  All-of_In P [] h = tt
  All-of_In P (x ∷ xs) h = (h x (inl refl), All-of_In P xs (λ a i. h a (inr i)))

  -- What a loop with `continue` keeps is what stood in the list and passed the test.
  pub In-of_select :
      (p : A → Bool) (xs : List A) (a : A) → In a (select p xs) → In a xs × (p a ≡ true)
  In-of_select p [] a h = elim h [ ]
  In-of_select p (x ∷ xs) a h = ground (arith, In-of_select p xs a)

  pub In-select_of :
      (p : A → Bool) (xs : List A) (a : A) → In a xs → p a ≡ true → In a (select p xs)
  In-select_of p [] a h e = elim h [ ]
  In-select_of p (x ∷ xs) a h e = ground (arith, In-select_of p xs a)

module _ {A B : Type 0} (f : A → B) where
  pub In-map : (xs : List A) (a : A) → In a xs → In (f a) (map f xs)
  In-map [] a i = elim i [ ]
  In-map (x ∷ xs) a i = elim i [ inl e ↦ inl (ap f e) | inr j ↦ inr (In-map xs a j) ]

  pub In-of_map : (xs : List A) (b : B) → In b (map f xs) → (a : A) × In a xs × (b ≡ f a)
  In-of_map [] b i = elim i [ ]
  In-of_map (x ∷ xs) b i = elim i [
    | inl e ↦ (x, inl refl, e)
    | inr j ↦ let (a, k, e) = In-of_map xs b j in (a, inr k, e)
  ]
