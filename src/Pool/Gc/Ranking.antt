-- ===== src/Pool/Gc/Ranking.antt =====
-- The order in which the collector takes its candidates.
use agent_env.Base.{
  length-take, ltb, not, ◌&&◌, ℕ, zero, suc, ◌≤◌, ◌≡◌, refl, sym, ap, subst, ◌∙◌, Bool, false, List,
  [], ◌∷◌, ◌++◌, select, take, length, All, arith, fun_ext,
}
use agent_env.Base.Int.{ℤ, pos, ◌≤ℤ◌, ltb_ℤ}
use agent_env.Base.Text.{text_lt}
use agent_env.Base.Sort.{
  sort, IsOrder, IsSorted, sort-IsSorted, sort-perm, length-sort, lex, lex-IsOrder, by-IsOrder,
}
use agent_env.Base.Filter.{select-sort}
use agent_env.Base.Orders.{text_lt-IsOrder, ltb-IsOrder, ltb_ℤ-IsOrder}
use agent_env.Pool.Gc.{ManagedPoolGcCandidate, collected_before, sub_time}
use agent_env.Pool.Gc.Pass.{too_young}
use mathlib.Core.List.{Perm}
use Prim.Native.Nat.{min}

-- `a` was used no later than `b`; at one time of use it is no newer, and at one age too its name
-- does not come after the other's.
pub record IsNoLater (a b : ManagedPoolGcCandidate) : Type 0 where
  pub by_use : a.last_used ≤ℤ b.last_used
  pub by_age : a.last_used ≡ b.last_used → a.pool.meta.created_at ≤ b.pool.meta.created_at
  pub by_name :
      a.last_used ≡ b.last_used
      → a.pool.meta.created_at ≡ b.pool.meta.created_at
      → text_lt b.pool.meta.name a.pool.meta.name ≡ false

-- Each candidate is no later than those behind it.
abbrev pub IsRanked : List ManagedPoolGcCandidate → Type 0
IsRanked [] = Unit {0}
IsRanked (c ∷ cs) = All (IsNoLater c) cs × IsRanked cs

-- No minimum age is set, or the time since the last use is not below it.
abbrev pub old_enough : ℤ → ℤ → ManagedPoolGcCandidate → Bool
old_enough now min_idle c =
    not (ltb_ℤ (pos 0) min_idle && ltb_ℤ (sub_time now c.last_used) min_idle)

pub too_young-old_enough :
    (now min_idle : ℤ) (c : ManagedPoolGcCandidate)
    → too_young now min_idle c ≡ not (old_enough now min_idle c)
unfolding too_young
too_young-old_enough now min_idle c = ground arith

-- Of the candidates with a property, the chosen ones come first in the order of the last use, the
-- creation and the name, and they are `n`, or all.
pub record AreFirst (keep : ManagedPoolGcCandidate → Bool) (n : ℕ)
    (candidates chosen : List ManagedPoolGcCandidate) : Type 0 where
  pub rest : List ManagedPoolGcCandidate
  pub same : Perm (chosen ++ rest) (select keep candidates)
  pub ranked : IsRanked (chosen ++ rest)
  pub number : length chosen ≡ min n (length (select keep candidates))

abbrev used_first : ManagedPoolGcCandidate → ManagedPoolGcCandidate → Bool
used_first a b = ltb_ℤ a.last_used b.last_used

abbrev created_first : ManagedPoolGcCandidate → ManagedPoolGcCandidate → Bool
created_first a b = ltb a.pool.meta.created_at b.pool.meta.created_at

abbrev named_first : ManagedPoolGcCandidate → ManagedPoolGcCandidate → Bool
named_first a b = text_lt a.pool.meta.name b.pool.meta.name

collected_before-lex :
    (a b : ManagedPoolGcCandidate)
    → collected_before a b ≡ lex used_first (lex created_first named_first) a b
unfolding collected_before
collected_before-lex a b = ground arith

lex3-IsOrder : IsOrder (lex used_first (lex created_first named_first))
lex3-IsOrder =
    lex-IsOrder _ _ (by-IsOrder (λ (c : ManagedPoolGcCandidate). c.last_used) _ ltb_ℤ-IsOrder) (
      lex-IsOrder _ _
        (by-IsOrder (λ (c : ManagedPoolGcCandidate). c.pool.meta.created_at) ltb ltb-IsOrder)
        (by-IsOrder (λ (c : ManagedPoolGcCandidate). c.pool.meta.name) text_lt text_lt-IsOrder))

collected_before-IsOrder : IsOrder collected_before
collected_before-IsOrder =
    subst IsOrder (sym (fun_ext (λ a. fun_ext (λ b. collected_before-lex a b)))) lex3-IsOrder

not_before-IsNoLater : (a b : ManagedPoolGcCandidate) → collected_before b a ≡ false → IsNoLater a b
unfolding collected_before
not_before-IsNoLater a b h = ground arith

AllNoLater :
    (c : ManagedPoolGcCandidate) (cs : List ManagedPoolGcCandidate)
    → All (λ d. collected_before d c ≡ false) cs
    → All (IsNoLater c) cs
AllNoLater c [] h = tt
AllNoLater c (d ∷ cs) h = (not_before-IsNoLater c d h.0, AllNoLater c cs h.1)

sorted-IsRanked : (cs : List ManagedPoolGcCandidate) → IsSorted collected_before cs → IsRanked cs
sorted-IsRanked [] h = tt
sorted-IsRanked (c ∷ cs) h = (AllNoLater c cs h.0, sorted-IsRanked cs h.1)

behind :
    (n : ℕ) (cs : List ManagedPoolGcCandidate)
    → (rest : List ManagedPoolGcCandidate) × (take n cs ++ rest ≡ cs)
behind zero cs = (cs, refl)
behind (suc n) [] = ([], refl)
behind (suc n) (c ∷ cs) = let (rest, e) = behind n cs in (rest, ap (λ x. c ∷ x) e)

pub take-AreFirst :
    (keep : ManagedPoolGcCandidate → Bool) (n : ℕ) (candidates : List ManagedPoolGcCandidate)
    → AreFirst keep n candidates (take n (select keep (sort collected_before candidates)))
take-AreFirst keep n candidates =
    let kept = select keep candidates in
    let all = select keep (sort collected_before candidates) in
    let e : all ≡ sort collected_before kept =
      select-sort collected_before collected_before-IsOrder keep candidates in
    let (rest, r) = behind n all in
    record {
      rest = rest;
      same = subst (λ x. Perm x kept) (sym (r ∙ e)) (sort-perm collected_before kept);
      ranked = subst IsRanked (sym (r ∙ e)) (
          sorted-IsRanked (sort collected_before kept)
            (sort-IsSorted collected_before collected_before-IsOrder kept));
      number =
          length-take n all
          ∙ ap (λ x. min n (length x)) e
          ∙ ap (min n) (length-sort collected_before kept);
    }
