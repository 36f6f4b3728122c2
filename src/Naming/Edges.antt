-- ===== src/Naming/Edges.antt =====
-- What `strings.Trim(s, "-")` leaves.
use agent_env.Base.{
  ℕ, zero, suc, ◌+◌, ◌≤◌, ◌<◌, ◌≡◌, refl, Bool, true, false, if◌then◌else◌, [], ◌∷◌, ◌++◌, inl, inr,
  length, arith, Bool-cases, All, eqb, take,
}
use agent_env.Naming.{drop_dash, trim_dash, clean_label, is_label_rune}
use agent_env.Base.Text.{Text}
use mathlib.Core.List.{reverse, reverse_aux}

module _ (P : ℕ → Type 0) where
  -- The first rune, if there is one, and the last.
  abbrev pub Starts : Text → Type 0
  Starts [] = Unit {0}
  Starts (c ∷ cs) = P c

  abbrev pub Ends : Text → Type 0
  Ends [] = Unit {0}
  Ends (c ∷ []) = P c
  Ends (c ∷ d ∷ ds) = Ends (d ∷ ds)

  All-reverse_aux : (xs ys : Text) → All P xs → All P ys → All P (reverse_aux xs ys)
  All-reverse_aux [] ys h k = k
  All-reverse_aux (x ∷ xs) ys h k = All-reverse_aux xs (x ∷ ys) h.1 (h.0, k)

  pub All-drop_dash : (xs : Text) → All P xs → All P (drop_dash xs)
  unfolding drop_dash
  All-drop_dash [] h = h
  All-drop_dash (c ∷ cs) h = elim (Bool-cases (eqb c 45)) [
    | inl t ↦ rw t (All-drop_dash cs h.1)
    | inr f ↦ rw f h
  ]

  pub All-trim_dash : (xs : Text) → All P xs → All P (trim_dash xs)
  unfolding trim_dash
  All-trim_dash xs h =
      All-reverse_aux _ [] (All-drop_dash _ (All-reverse_aux _ [] (All-drop_dash xs h) tt)) tt

  pub All-append : (xs ys : Text) → All P xs → All P ys → All P (xs ++ ys)
  All-append [] ys h k = k
  All-append (x ∷ xs) ys h k = (h.0, All-append xs ys h.1 k)

  pub All-take : (n : ℕ) (xs : Text) → All P xs → All P (take n xs)
  All-take zero xs h = tt
  All-take (suc n) [] h = tt
  All-take (suc n) (x ∷ xs) h = (h.0, All-take n xs h.1)

  pub Ends-append : (xs ys : Text) (y : ℕ) → Ends (y ∷ ys) → Ends (xs ++ y ∷ ys)
  Ends-append [] ys y h = h
  Ends-append (x ∷ []) ys y h = h
  Ends-append (x ∷ z ∷ zs) ys y h = Ends-append (z ∷ zs) ys y h

  Ends-reverse_aux : (xs ys : Text) (y : ℕ) → Ends (y ∷ ys) → Ends (reverse_aux xs (y ∷ ys))
  Ends-reverse_aux [] ys y h = h
  Ends-reverse_aux (x ∷ xs) ys y h = Ends-reverse_aux xs (y ∷ ys) x h

  Starts-reverse_aux : (x : ℕ) (xs ys : Text) → Ends (x ∷ xs) → Starts (reverse_aux (x ∷ xs) ys)
  Starts-reverse_aux x [] ys h = h
  Starts-reverse_aux x (z ∷ zs) ys h = Starts-reverse_aux z zs (x ∷ ys) h

  Ends-reverse : (xs : Text) → Starts xs → Ends (reverse xs)
  Ends-reverse [] h = tt
  Ends-reverse (x ∷ xs) h = Ends-reverse_aux xs [] x h

  Starts-reverse : (xs : Text) → Ends xs → Starts (reverse xs)
  Starts-reverse [] h = tt
  Starts-reverse (x ∷ xs) h = Starts-reverse_aux x xs [] h

  Ends-drop_dash : (xs : Text) → Ends xs → Ends (drop_dash xs)
  unfolding drop_dash
  Ends-drop_dash [] h = h
  Ends-drop_dash (c ∷ []) h = elim (Bool-cases (eqb c 45)) [ inl t ↦ rw t tt | inr f ↦ rw f h ]
  Ends-drop_dash (c ∷ d ∷ ds) h = elim (Bool-cases (eqb c 45)) [
    | inl t ↦ rw t (Ends-drop_dash (d ∷ ds) h)
    | inr f ↦ rw f h
  ]

abbrev pub IsNotDash : ℕ → Type 0
IsNotDash c = eqb c 45 ≡ false

Starts-drop_dash : (xs : Text) → Starts IsNotDash (drop_dash xs)
unfolding drop_dash
Starts-drop_dash [] = tt
Starts-drop_dash (c ∷ cs) = elim (Bool-cases (eqb c 45)) [
  | inl t ↦ rw t (Starts-drop_dash cs)
  | inr f ↦ rw f f
]

trimmed-Ends : (xs : Text) → Ends IsNotDash (drop_dash (reverse (drop_dash xs)))
trimmed-Ends xs =
    Ends-drop_dash IsNotDash (reverse (drop_dash xs))
      (Ends-reverse IsNotDash (drop_dash xs) (Starts-drop_dash xs))

pub Starts-trim_dash : (xs : Text) → Starts IsNotDash (trim_dash xs)
unfolding trim_dash
Starts-trim_dash xs =
    Starts-reverse IsNotDash (drop_dash (reverse (drop_dash xs))) (trimmed-Ends xs)

pub Ends-trim_dash : (xs : Text) → Ends IsNotDash (trim_dash xs)
unfolding trim_dash
Ends-trim_dash xs = Ends-reverse IsNotDash _ (Starts-drop_dash (reverse (drop_dash xs)))

length-reverse_aux : (xs ys : Text) → length (reverse_aux xs ys) ≡ length xs + length ys
length-reverse_aux [] ys = omega arith
length-reverse_aux (x ∷ xs) ys = omega (arith, length-reverse_aux xs (x ∷ ys))

length-drop_dash : (xs : Text) → length (drop_dash xs) ≤ length xs
unfolding drop_dash
length-drop_dash [] = omega arith
length-drop_dash (c ∷ cs) = ground (arith, length-drop_dash cs)

pub length-trim_dash : (xs : Text) → length (trim_dash xs) ≤ length xs
unfolding trim_dash
length-trim_dash xs = omega (
  arith,
  length-drop_dash xs,
  length-reverse_aux (drop_dash xs) [],
  length-drop_dash (reverse (drop_dash xs)),
  length-reverse_aux (drop_dash (reverse (drop_dash xs))) [],
)

nonempty-drop_dash : (x : ℕ) (xs : Text) → Ends IsNotDash (x ∷ xs) → 0 < length (drop_dash (x ∷ xs))
unfolding drop_dash
nonempty-drop_dash x [] h = rw h (omega arith)
nonempty-drop_dash x (y ∷ ys) h = elim (Bool-cases (eqb x 45)) [
  | inl t ↦ rw t (nonempty-drop_dash y ys h)
  | inr f ↦ rw f (omega arith)
]

-- What starts with another rune than a dash is not trimmed away.
pub nonempty-trim_dash : (x : ℕ) (xs : Text) → IsNotDash x → 0 < length (trim_dash (x ∷ xs))
unfolding trim_dash drop_dash
nonempty-trim_dash x xs h = rw h (
    left (reverse (x ∷ xs)) (Ends-reverse IsNotDash (x ∷ xs) h)
      (omega (arith, length-reverse_aux (x ∷ xs) [])))
  where
    left : (t : Text) → Ends IsNotDash t → 0 < length t → 0 < length (reverse (drop_dash t))
    left [] e l = l
    left (y ∷ ys) e l =
        omega (arith, nonempty-drop_dash y ys e, length-reverse_aux (drop_dash (y ∷ ys)) [])

-- A cleaned text has only letters, digits and dashes.
pub clean_label-All :
    (run : Bool) (xs : Text) → All (λ c. is_label_rune c ≡ true) (clean_label run xs)
unfolding clean_label is_label_rune
clean_label-All run [] = tt
clean_label-All run (c ∷ cs) = elim (Bool-cases (is_label_rune c)) [
  | inl t ↦ rw t (t, clean_label-All false cs)
  | inr f ↦ rw f (dashed run (clean_label-All true cs))
]
  where
    dashed :
        (b : Bool)
        → All (λ c. is_label_rune c ≡ true) (clean_label true cs)
        → All
            (λ c. is_label_rune c ≡ true)
            (if b then clean_label true cs else 45 ∷ clean_label true cs)
    dashed true h = h
    dashed false h = (refl, h)
