-- ===== src/Base/Sets.antt =====
-- A Go map used as a set of strings, as a list.
use agent_env.Base.{
  List, Bool, if◌then◌else◌, ◌∷◌, ◌≡◌, false, ◌==◌, not, true, ◌||◌, [], ◌&&◌, ◌↔◌, Bool-cases,
  arith, In, inl, inr,
}
use agent_env.Base.Text.{Text, Text_eq}

unfoldable pub contains : Text → List Text → Bool
contains a [] = false
contains a (x ∷ xs) = x == a || contains a xs

unfoldable pub add_to_set : Text → List Text → List Text
unfolding contains
add_to_set a xs = if contains a xs then xs else a ∷ xs

unfoldable pub delete_from_set : Text → List Text → List Text
delete_from_set a [] = []
delete_from_set a (x ∷ xs) = let rest = delete_from_set a xs in if x == a then rest else x ∷ rest

pub contains-add_to_set :
    (a b : Text) (xs : List Text) → contains b (add_to_set a xs) ≡ (a == b || contains b xs)
unfolding add_to_set contains
contains-add_to_set a b xs = elim (Bool-cases (contains a xs)) [
  | inl t ↦ rw t (ground (arith, Text_eq.equals_iff a b, t))
  | inr f ↦ rw f (ground (arith, f))
]

pub contains-delete_from_set :
    (a b : Text) (xs : List Text)
    → contains b (delete_from_set a xs) ≡ (not (a == b) && contains b xs)
unfolding delete_from_set contains
contains-delete_from_set a b [] = ground arith
contains-delete_from_set a b (x ∷ xs) = ground (
  arith,
  Text_eq.equals_iff x a,
  Text_eq.equals_iff x b,
  Text_eq.equals_iff a b,
  contains-delete_from_set a b xs,
)

pub contains_iff : (a : Text) (xs : List Text) → (contains a xs ≡ true) ↔ In a xs
unfolding contains
contains_iff a [] = ground arith
contains_iff a (x ∷ xs) = ground (arith, Text_eq.equals_iff x a, contains_iff a xs)
