-- ===== src/Pool/Selector/Agreement.antt =====
-- SelectPool over two listings of the same pools.
use agent_env.Base.{
  ◌≡◌, refl, sym, ap, ◌∙◌, true, inl, inr, List, ◌∷◌, In, arith, Bool-cases, In-of_select,
  if◌then◌else◌, not, ap₂, ◌&&◌, subst,
}
use agent_env.Base.Text.{Text, text_eq, text_eq_iff, is_empty, trim_space}
use agent_env.Base.Sort.{sort-Permᴰ, select-Permᴰ, Permᴰ-In, TellsApart}
use agent_env.Pool.Snapshot.{PoolSnapshot}
use agent_env.Pool.Selector.{
  ResourceIntent, better, wanted, candidates, select_first, select_pinned, select_pool,
}
use agent_env.Pool.Selector.Order.{better-IsOrder, better_total}
use mathlib.Core.List.{Permᴰ}

-- Kubernetes names an object once in a namespace.
abbrev pub HasUniqueNames : List PoolSnapshot → Type 0
HasUniqueNames pools =
    (a b : PoolSnapshot)
    → In a pools
    → In b pools
    → a.namespace ≡ b.namespace
    → a.name ≡ b.name
    → a ≡ b

wanted_namespace : (n p i : Text) (q : PoolSnapshot) → wanted n p i q ≡ true → q.namespace ≡ n
unfolding wanted
wanted_namespace n p i q h = ground (arith, text_eq_iff q.namespace n)

candidates-TellsApart :
    (n p i : Text) (pools : List PoolSnapshot)
    → HasUniqueNames pools
    → TellsApart better (candidates n p i pools)
unfolding candidates
candidates-TellsApart n p i pools u a b ia ib h k =
    let (ja, wa) = In-of_select (wanted n p i) pools a ia in
    let (jb, wb) = In-of_select (wanted n p i) pools b ib in
    u a b ja jb (wanted_namespace n p i a wa ∙ sym (wanted_namespace n p i b wb))
      (better_total a b h k)

candidates-Permᴰ :
    (n p i : Text) {xs ys : List PoolSnapshot}
    → Permᴰ xs ys
    → Permᴰ (candidates n p i xs) (candidates n p i ys)
unfolding candidates
candidates-Permᴰ n p i q = select-Permᴰ (wanted n p i) q

-- Of two pools at the head, at most one has the pinned name.
select_pinned_swap :
    (n m p i : Text) (a b : PoolSnapshot) (l : List PoolSnapshot)
    → (a.namespace ≡ b.namespace → a.name ≡ b.name → a ≡ b)
    → select_pinned n m p i (a ∷ b ∷ l) ≡ select_pinned n m p i (b ∷ a ∷ l)
unfolding select_pinned
select_pinned_swap n m p i a b l u = elim (Bool-cases (text_eq a.namespace n && text_eq a.name m)) [
  | inl ha ↦ elim (Bool-cases (text_eq b.namespace n && text_eq b.name m)) [
    | inl hb ↦
        subst (λ c. select_pinned n m p i (a ∷ c ∷ l) ≡ select_pinned n m p i (c ∷ a ∷ l))
          (u (ground (arith, text_eq_iff a.namespace n, text_eq_iff b.namespace n))
            (ground (arith, text_eq_iff a.name m, text_eq_iff b.name m)))
          refl
    | inr hb ↦ rw (ha, hb) refl
  ]
  | inr ha ↦ rw ha refl
]

select_pinned_tail :
    (n m p i : Text) (a : PoolSnapshot) (xs ys : List PoolSnapshot)
    → select_pinned n m p i xs ≡ select_pinned n m p i ys
    → select_pinned n m p i (a ∷ xs) ≡ select_pinned n m p i (a ∷ ys)
unfolding select_pinned
select_pinned_tail n m p i a xs ys h = rw h refl

select_pinned-Permᴰ :
    (n m p i : Text) {xs ys : List PoolSnapshot}
    → HasUniqueNames xs
    → Permᴰ xs ys
    → select_pinned n m p i xs ≡ select_pinned n m p i ys
select_pinned-Permᴰ n m p i u Permᴰ.nil = refl
select_pinned-Permᴰ n m p i u (Permᴰ.cons {a = a} {l₁ = xs} {l₂ = ys} e q) =
    select_pinned_tail n m p i a xs ys
      (select_pinned-Permᴰ n m p i (λ c d j k. u c d (inr j) (inr k)) q)
    ∙ ap (λ c. select_pinned n m p i (c ∷ ys)) e
select_pinned-Permᴰ n m p i u (Permᴰ.swap {a = x} {b = y} {l = l} e f) =
    select_pinned_swap n m p i x y l (λ s t. u x y (inl refl) (inr (inl refl)) s t) ∙ rw (e, f)
select_pinned-Permᴰ n m p i u (Permᴰ.trans q r) =
    select_pinned-Permᴰ n m p i u q
    ∙ select_pinned-Permᴰ n m p i (λ a b j k. u a b (Permᴰ-In a q j) (Permᴰ-In b q k)) r

-- Any listing of the same pools, told apart by namespace and name, gives the same selection or the
-- same error, pinned or not.
pub select_pool-Permᴰ :
    (intent : ResourceIntent) {xs ys : List PoolSnapshot}
    → HasUniqueNames xs
    → Permᴰ xs ys
    → select_pool intent xs ≡ select_pool intent ys
unfolding select_pool
select_pool-Permᴰ intent u q =
    ap₂ (λ a b. if not (is_empty intent.pinned_pool_name) then a else b)
      (select_pinned-Permᴰ _ _ _ _ u q)
      (ap (select_first (trim_space intent.profile)) (
        sort-Permᴰ better better-IsOrder (candidates-TellsApart _ _ _ _ u)
          (candidates-Permᴰ _ _ _ q)))
