-- ===== src/Scheduler/Rendezvous/Stability.antt =====
-- The choice of nodes under other listings of the nodes.
use agent_env.Base.Text.{Text, text_eq, text_eq_iff, text_lt, text_lt_total}
use agent_env.Base.Sort.{
  sort, IsOrder, lex, lex-IsOrder, by-IsOrder, sort-Permᴰ, TellsApart, length-sort,
}
use agent_env.Base.Orders.{text_lt-IsOrder}
use agent_env.Base.Filter.{select-sort, take-select}
use agent_env.Scheduler.Rendezvous.{Scored, outranks, scored, compute_top_k}
use agent_env.Base.{
  length-take, take, Bool, ◌≡◌, arith, subst, List, ℕ, ltb, sym, length, map, ap, not, In, fun_ext,
  ◌∷◌, In-of_map, ◌∙◌, select, All, suc, true, inl, inr, [], refl,
}
use mathlib.Core.List.{Permᴰ}
use Prim.Native.Nat.{min}

abbrev higher : Scored → Scored → Bool
higher a b = ltb b.score a.score

abbrev earlier : Scored → Scored → Bool
earlier a b = text_lt a.name b.name

outranks-lex : (a b : Scored) → outranks a b ≡ lex higher earlier a b
unfolding outranks
outranks-lex a b = ground arith

higher-IsOrder : IsOrder higher
higher-IsOrder = record {
  irrefl = λ a. ground arith;
  trans = λ a b c h k. ground arith;
  cotrans = λ a b c h k. ground arith;
}

outranks-IsOrder : IsOrder outranks
outranks-IsOrder = subst IsOrder (sym (fun_ext (λ a. fun_ext (λ b. outranks-lex a b)))) (
    lex-IsOrder higher earlier higher-IsOrder
      (by-IsOrder (λ (s : Scored). s.name) text_lt text_lt-IsOrder))

length-map {ℓ κ} :
    {A : Type ℓ} {B : Type κ} (f : A → B) (xs : List A) → length (map f xs) ≡ length xs
length-map f [] = refl
length-map f (x ∷ xs) = ap suc (length-map f xs)

map-Permᴰ : {A B : Type 0} (f : A → B) {xs ys : List A} → Permᴰ xs ys → Permᴰ (map f xs) (map f ys)
map-Permᴰ f Permᴰ.nil = Permᴰ.nil
map-Permᴰ f (Permᴰ.cons e p) = Permᴰ.cons (ap f e) (map-Permᴰ f p)
map-Permᴰ f (Permᴰ.swap e g) = Permᴰ.swap (ap f e) (ap f g)
map-Permᴰ f (Permᴰ.trans p q) = Permᴰ.trans (map-Permᴰ f p) (map-Permᴰ f q)

module _ (weigh : Text → Text → ℕ) (image : Text) where
  -- Nodes are told apart by their names.
  scored-TellsApart : (nodes : List Text) → TellsApart outranks (map (scored weigh image) nodes)
  unfolding outranks scored
  scored-TellsApart nodes a b i j h k =
      let (m, _, e) = In-of_map (scored weigh image) nodes a i in
      let (n, _, f) = In-of_map (scored weigh image) nodes b j in
      e
      ∙ ap (scored weigh image) (
          ap (λ (s : Scored). s.name) (sym e)
          ∙ text_lt_total a.name b.name (ground arith) (ground arith)
          ∙ ap (λ (s : Scored). s.name) f)
      ∙ sym f

  -- The choice has k nodes, or all where there are fewer.
  pub length-compute_top_k :
      (nodes : List Text) (k : ℕ)
      → length (compute_top_k weigh image nodes k) ≡ min k (length nodes)
  unfolding compute_top_k
  length-compute_top_k nodes k =
      length-map _ (take k (sort outranks (map (scored weigh image) nodes)))
      ∙ length-take k _
      ∙ ap (min k) (length-sort outranks _ ∙ length-map (scored weigh image) nodes)

  -- The choice is the same however the nodes are listed.
  pub compute_top_k-Permᴰ :
      (k : ℕ) {xs ys : List Text}
      → Permᴰ xs ys
      → compute_top_k weigh image xs k ≡ compute_top_k weigh image ys k
  unfolding compute_top_k
  compute_top_k-Permᴰ k {xs} {ys} p =
      ap (λ l. map (λ (s : Scored). s.name) (take k l))
        (sort-Permᴰ outranks outranks-IsOrder (scored-TellsApart xs)
          (map-Permᴰ (scored weigh image) p))

  -- A node that was not chosen.
  others : Text → Text → Bool
  others gone node = not (text_eq node gone)

  select-map :
      (gone : Text) (nodes : List Text)
      → map (scored weigh image) (select (λ n. not (text_eq n gone)) nodes)
        ≡ select (λ (s : Scored). not (text_eq s.name gone)) (map (scored weigh image) nodes)
  unfolding scored
  select-map gone [] = refl
  select-map gone (n ∷ ns) = ground (arith, select-map gone ns)

  none_gone :
      (gone : Text) (l : List Scored)
      → (In gone (map (λ (s : Scored). s.name) l) → ⊥)
      → All (λ (s : Scored). not (text_eq s.name gone) ≡ true) l
  none_gone gone [] h = tt
  none_gone gone (s ∷ l) h = (
    ground (arith, text_eq_iff s.name gone, λ (e : gone ≡ s.name). h (inl e)),
    none_gone gone l (λ i. h (inr i)),
  )

  -- When a node that was not chosen goes, the choice stays as it was.
  pub compute_top_k_stable :
      (nodes : List Text) (k : ℕ) (gone : Text)
      → ¬ In gone (compute_top_k weigh image nodes k)
      → compute_top_k weigh image (select (λ n. not (text_eq n gone)) nodes) k
        ≡ compute_top_k weigh image nodes k
  unfolding compute_top_k
  compute_top_k_stable nodes k gone h =
      ap (λ l. map (λ (s : Scored). s.name) (take k (sort outranks l))) (select-map gone nodes)
      ∙ ap (λ l. map (λ (s : Scored). s.name) (take k l))
          (sym (
            select-sort outranks outranks-IsOrder (λ (s : Scored). not (text_eq s.name gone))
              (map (scored weigh image) nodes)))
      ∙ ap (map (λ (s : Scored). s.name))
          (take-select (λ (s : Scored). not (text_eq s.name gone)) k _ (none_gone gone _ h))
