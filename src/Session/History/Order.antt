-- ===== src/Session/History/Order.antt =====
-- The indexes of a history, through any additions and truncations.
use agent_env.Base.{
  ◌≤◌, ◌<◌, ◌≡◌, refl, List, [], ◌∷◌, ◌++◌, select, inl, inr, arith, Bool-cases, All,
}
use agent_env.Base.Text.{Text}
use agent_env.Base.Int.{ℤ, pos, ◌<ℤ◌, ◌≤ℤ◌, add_int64, pos_part, neg_part}
use agent_env.Session.History.{StepRecord, StepHistory, add, at_most, truncate_to}

-- Every index is above the ones before it and below the next to be assigned.
abbrev pub IsIncreasing : List StepRecord → ℤ → Type 0
IsIncreasing [] next = Unit {0}
IsIncreasing (r ∷ rs) next =
    All (λ s. r.index <ℤ s.index) rs × (r.index <ℤ next) × IsIncreasing rs next

pub data Command : Type 0 where
  adds : StepRecord → Command
  truncates : ℤ → Command

unfoldable pub apply : (ℤ → Text) → Command → StepHistory → StepHistory
unfolding add truncate_to
apply show (adds step) h = (add show step h).1
apply show (truncates target) h = truncate_to target h

unfoldable pub apply_all : (ℤ → Text) → List Command → StepHistory → StepHistory
unfolding apply
apply_all show [] h = h
apply_all show (c ∷ cs) h = apply_all show cs (apply show c h)

-- An int that one can be added to.
abbrev pub HasNext : ℤ → Type 0
HasNext a = (pos_part a < 9223372036854775807) × (neg_part a ≤ 9223372036854775808)

-- No index that is assigned, nor any target, is the last int.
abbrev pub AreInRange : (ℤ → Text) → List Command → StepHistory → Type 0
AreInRange show [] h = Unit {0}
AreInRange show (adds step ∷ cs) h =
    HasNext h.next_index × AreInRange show cs (apply show (adds step) h)
AreInRange show (truncates t ∷ cs) h = HasNext t × AreInRange show cs (apply show (truncates t) h)

add_one :
    (a : ℤ) → HasNext a → (a <ℤ add_int64 a (pos 1)) × ((b : ℤ) → b ≤ℤ a → b <ℤ add_int64 a (pos 1))
unfolding add_int64
add_one a h = (ground arith, λ b k. ground arith)

All-append :
    (a : ℤ) (rs : List StepRecord) (r : StepRecord)
    → All (λ s. a <ℤ s.index) rs
    → a <ℤ r.index
    → All (λ s. a <ℤ s.index) (rs ++ r ∷ [])
All-append a [] r h k = (k, tt)
All-append a (s ∷ rs) r h k = (h.0, All-append a rs r h.1 k)

All-select :
    (a target : ℤ) (rs : List StepRecord)
    → All (λ s. a <ℤ s.index) rs
    → All (λ s. a <ℤ s.index) (select (at_most target) rs)
All-select a target [] h = tt
All-select a target (s ∷ rs) h = ground (arith, All-select a target rs)

appended :
    (rs : List StepRecord) (r : StepRecord) (next later : ℤ)
    → IsIncreasing rs next
    → r.index ≡ next
    → next <ℤ later
    → IsIncreasing (rs ++ r ∷ []) later
appended [] r next later h e l = ground (arith, e)
appended (s ∷ rs) r next later h e l = (
  All-append s.index rs r h.0 (ground (arith, e, h.1)),
  ground (arith, h.1, l),
  appended rs r next later h.2 e l,
)

truncated :
    (rs : List StepRecord) (target next later : ℤ)
    → IsIncreasing rs next
    → ((b : ℤ) → b ≤ℤ target → b <ℤ later)
    → IsIncreasing (select (at_most target) rs) later
unfolding at_most
truncated [] target next later h l = tt
truncated (s ∷ rs) target next later h l = elim (Bool-cases (at_most target s)) [
  | inl t ↦ rw t (
    All-select s.index target rs h.0,
    l s.index (ground (arith, t)),
    truncated rs target next later h.2 l,
  )
  | inr f ↦ rw f (truncated rs target next later h.2 l)
]

-- After any additions and truncations of a history in order, the indexes increase strictly and stay below
-- the next one, where no index assigned and no target is the last int.
pub apply_all-IsIncreasing :
    (show : ℤ → Text) (cs : List Command) (h : StepHistory)
    → IsIncreasing h.records h.next_index
    → AreInRange show cs h
    → IsIncreasing (apply_all show cs h).records (apply_all show cs h).next_index
unfolding apply_all apply add truncate_to
apply_all-IsIncreasing show [] h i r = i
apply_all-IsIncreasing show (adds step ∷ cs) h i r =
    apply_all-IsIncreasing show cs (apply show (adds step) h)
      (appended h.records _ h.next_index _ i refl ((add_one h.next_index r.0).0)) r.1
apply_all-IsIncreasing show (truncates t ∷ cs) h i r =
    apply_all-IsIncreasing show cs (apply show (truncates t) h)
      (truncated h.records t h.next_index _ i ((add_one t r.0).1)) r.1
