-- ===== src/Pool/Index/Counts.antt =====
-- The claim counts of the pool index against the numbers of its claims.
use agent_env.Base.{
  ℕ, ◌+◌, ◌<◌, ◌≡◌, arith, if◌then◌else◌, length, ◌==◌, none, some, ◌≢◌, ap, ◌-◌, ◌∙◌,
}
use agent_env.Base.Int.{ℤ, pos, inc_int32, dec_int32, inc_int32-pos, dec_int32-pos}
use agent_env.Base.Table.{
  Table, IsMap, lookup-insert, entries_with, lookup, insert, entries_with-delete, delete,
  insert-IsMap, delete-IsMap, entries_with-le-length, one_if, entries_with-insert,
}
use agent_env.Kube.{Key, Key_eq, key_eq_iff}
use agent_env.Pool.Index.{PoolIndex, count_of, count_up, count_down}

-- The counts are those of the claims, and no int32 is near its end.
pub record AreCounts (claims : Table Key Key) (counts : Table Key ℤ) : Type 0 where
  pub is_map : IsMap claims
  pub exact : (q : Key) → count_of q counts ≡ pos (entries_with q claims)

abbrev pub IsExact : PoolIndex → Type 0
IsExact idx = AreCounts idx.claims idx.claim_counts

-- There is room for one more claim in an int32.
abbrev pub HasRoom : PoolIndex → Type 0
HasRoom idx = length idx.claims < 2147483647

count_of-count_up :
    (q k : Key) (m : Table Key ℤ) (n : ℕ)
    → count_of k m ≡ pos n
    → n < 2147483647
    → count_of q (count_up k m) ≡ (if k == q then pos (n + 1) else count_of q m)
unfolding count_up
count_of-count_up q k m n e h =
    ground
      (arith, lookup-insert k q (inc_int32 (count_of k m)) m, inc_int32-pos n h, key_eq_iff k q)

pub count_of-count_down :
    (q k : Key) (m : Table Key ℤ) (n : ℕ)
    → count_of k m ≡ pos (n + 1)
    → n < 2147483647
    → count_of q (count_down k m) ≡ (if k == q then pos n else count_of q m)
unfolding count_down
count_of-count_down q k m n e h =
    ground
      (arith, lookup-insert k q (dec_int32 (count_of k m)) m, dec_int32-pos n h, key_eq_iff k q)

module _ (claims : Table Key Key) (counts : Table Key ℤ) (a : AreCounts claims counts) where
  pub insert_new :
      (c p : Key)
      → lookup c claims ≡ none
      → length claims < 2147483647
      → AreCounts (insert c p claims) (count_up p counts)
  insert_new c p e room = record {
    is_map = insert-IsMap c p claims a.is_map;
    exact = λ q. ground (
      arith,
      count_of-count_up q p counts (entries_with p claims) (a.exact p),
      entries_with-le-length p claims,
      entries_with-insert q p c claims,
      a.exact q,
      ap (λ o. one_if o q) e,
      key_eq_iff p q,
    );
  }

  -- An entry that is there counts.
  entries_with_pos : (c p : Key) → lookup c claims ≡ some p → 0 < entries_with p claims
  entries_with_pos c p e =
      ground
        (arith, entries_with-delete p c claims a.is_map, ap (λ o. one_if o p) e, key_eq_iff p p)

  pub remove_known :
      (c p : Key)
      → lookup c claims ≡ some p
      → length claims < 2147483647
      → AreCounts (delete c claims) (count_down p counts)
  remove_known c p e room = record {
    is_map = delete-IsMap c claims a.is_map;
    exact = λ q. ground (
      arith,
      count_of-count_down q p counts (entries_with p claims - 1),
      a.exact p,
      entries_with_pos c p e,
      entries_with-le-length p claims,
      entries_with-delete q c claims a.is_map,
      a.exact q,
      ap (λ o. one_if o q) e,
      key_eq_iff p q,
    );
  }

  pub move_known :
      (c old p : Key)
      → lookup c claims ≡ some old
      → old ≢ p
      → length claims < 2147483647
      → AreCounts (insert c p claims) (count_up p (count_down old counts))
  move_known c old p e ne room = record {
    is_map = insert-IsMap c p claims a.is_map;
    exact = λ q. ground (
      arith,
      count_of-count_up q p (count_down old counts) (entries_with p claims),
      count_of-count_down p old counts (entries_with old claims - 1),
      count_of-count_down q old counts (entries_with old claims - 1),
      a.exact p,
      a.exact old,
      a.exact q,
      entries_with_pos c old e,
      entries_with-le-length old claims,
      entries_with-le-length p claims,
      entries_with-insert q p c claims,
      ap (λ o. one_if o q) e,
      key_eq_iff p q,
      key_eq_iff old q,
      key_eq_iff old p,
    );
  }

-- An unknown claim is counted off no pool where its pool has no claims.
count_down_zero :
    (p : Key) (counts : Table Key ℤ) → count_of p counts ≡ pos 0 → count_down p counts ≡ counts
unfolding count_down
count_down_zero p counts e = ground arith

pub remove_unknown :
    (claims : Table Key Key) (counts : Table Key ℤ) (c p : Key)
    → AreCounts claims counts
    → lookup c claims ≡ none
    → entries_with p claims ≡ 0
    → AreCounts (delete c claims) (count_down p counts)
remove_unknown claims counts c p a e z =
    let same : count_down p counts ≡ counts = count_down_zero p counts (a.exact p ∙ ap pos z) in
    record {
      is_map = delete-IsMap c claims a.is_map;
      exact = λ q.
          ap (count_of q) same
          ∙ ground
              (arith, a.exact q, entries_with-delete q c claims a.is_map, ap (λ o. one_if o q) e);
    }
