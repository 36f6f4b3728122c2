-- ===== src/Base/Filter.antt =====
-- Filters and `sort`.
use agent_env.Base.Tests.{Bool-cases}
use agent_env.Base.Lists.{All, All-In, All-of_In, select, In-of_select, take}
use agent_env.Base.Sort.{place, sort, IsOrder, IsSorted, sort-IsSorted}
use Prim.Native.Nat.{ℕ, zero, suc}
use mathlib.Core.Path.{◌≡◌, refl, ap, ◌∙◌}
use mathlib.Core.Logic.{inl, inr}
use mathlib.Core.Bool.{Bool, true, false}
use mathlib.Core.List.{List, [], ◌∷◌}
use native.Mathlib.Omega.{arith}

module _ {A : Type 0} (less : A → A → Bool) (o : IsOrder less) (keep : A → Bool) where
  place_first : (x : A) (s : List A) → All (λ y. less y x ≡ false) s → place less x s ≡ x ∷ s
  unfolding place
  place_first x [] h = refl
  place_first x (y ∷ s) h = ground arith

  select-place_kept :
      (x : A) (s : List A)
      → keep x ≡ true
      → IsSorted less s
      → select keep (place less x s) ≡ place less x (select keep s)
  unfolding place
  select-place_kept x [] k h = ground arith
  select-place_kept x (y ∷ s) k h = ground (
    arith,
    select-place_kept x s k h.1,
    λ (f : less y x ≡ false). place_first x (select keep s) (
        All-of_In _ (select keep s)
          (λ a i. o.cotrans x y a f (All-In _ s a h.0 (In-of_select keep s a i).0))),
  )

  select-place_dropped :
      (x : A) (s : List A) → keep x ≡ false → select keep (place less x s) ≡ select keep s
  unfolding place
  select-place_dropped x [] k = ground arith
  select-place_dropped x (y ∷ s) k = ground (arith, select-place_dropped x s k)

  pub select-sort : (xs : List A) → select keep (sort less xs) ≡ sort less (select keep xs)
  unfolding sort
  select-sort [] = refl
  select-sort (x ∷ xs) = elim (Bool-cases (keep x)) [
    | inl t ↦ rw t (
        select-place_kept x (sort less xs) t (sort-IsSorted less o xs)
        ∙ ap (place less x) (select-sort xs))
    | inr f ↦ rw f (select-place_dropped x (sort less xs) f ∙ select-sort xs)
  ]

-- A filter that keeps the first k keeps them first.
pub take-select :
    {A : Type 0} (keep : A → Bool) (k : ℕ) (xs : List A)
    → All (λ x. keep x ≡ true) (take k xs)
    → take k (select keep xs) ≡ take k xs
take-select keep zero xs h = refl
take-select keep (suc k) [] h = refl
take-select keep (suc k) (x ∷ xs) h = ground (arith, take-select keep k xs)
