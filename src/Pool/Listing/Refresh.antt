-- ===== src/Pool/Listing/Refresh.antt =====
-- The claim counts of a refreshed index and of a direct listing.
use agent_env.Base.{
  ◌+◌, ◌≤◌, ◌<◌, ◌≡◌, refl, ap, none, some, List, [], ◌∷◌, inl, inr, length, arith, Option-cases,
}
use agent_env.Base.Int.{ℤ}
use agent_env.Base.Table.{
  Table, IsMap, lookup, insert, lookup-insert, entries_with, entries_with-insert, one_if,
  length-insert,
}
use agent_env.Kube.{Key, Key_eq, key_eq_iff, meta_key, WarmPool, Template, Claim}
use agent_env.Pool.Index.{PoolIndex, count_of, count_up, replace_claims, replace}
use agent_env.Pool.Index.Counts.{AreCounts, IsExact, insert_new}
use agent_env.Pool.Listing.{
  live_pool, count_claim, count_claims, add_claim, claims_by_pool, refresh_pool_index,
}

-- No claim has the name of a live claim before it, as in a listing.
abbrev pub AreFresh : List Claim → Table Key Key → Type 0
AreFresh [] m = Unit {0}
AreFresh (c ∷ cs) m = (lookup (meta_key c.meta) m ≡ none) × AreFresh cs (add_claim c m)

add_skipped : (c : Claim) (m : Table Key Key) → live_pool c ≡ none → add_claim c m ≡ m
unfolding add_claim
add_skipped c m e = rw (e, add_claim) refl

add_live :
    (c : Claim) (m : Table Key Key) {p : Key}
    → live_pool c ≡ some p
    → add_claim c m ≡ insert (meta_key c.meta) p m
unfolding add_claim
add_live c m e = rw (e, add_claim) refl

count_skipped : (c : Claim) (m : Table Key ℤ) → live_pool c ≡ none → count_claim c m ≡ m
unfolding count_claim
count_skipped c m e = rw (e, count_claim) refl

count_live :
    (c : Claim) (m : Table Key ℤ) {p : Key} → live_pool c ≡ some p → count_claim c m ≡ count_up p m
unfolding count_claim
count_live c m e = rw (e, count_claim) refl

length-add_claim : (c : Claim) (m : Table Key Key) → length (add_claim c m) ≤ length m + 1
length-add_claim c m = elim (Option-cases (live_pool c)) [
  | inl e ↦ rw (add_skipped c m e) (omega arith)
  | inr (p, e) ↦ rw (add_live c m e) (length-insert (meta_key c.meta) p m)
]

one-AreCounts :
    (c : Claim) (m : Table Key Key) (n : Table Key ℤ)
    → AreCounts m n
    → lookup (meta_key c.meta) m ≡ none
    → length m < 2147483647
    → AreCounts (add_claim c m) (count_claim c n)
one-AreCounts c m n a f room = elim (Option-cases (live_pool c)) [
  | inl e ↦ rw (add_skipped c m e, count_skipped c n e) a
  | inr (p, e) ↦ rw (add_live c m e, count_live c n e) (insert_new m n a (meta_key c.meta) p f room)
]

-- The direct counts are those of the claims that a refresh collects.
listed-AreCounts :
    (cs : List Claim) (m : Table Key Key) (n : Table Key ℤ)
    → AreCounts m n
    → AreFresh cs m
    → length m + length cs < 2147483647
    → AreCounts (claims_by_pool cs m) (count_claims cs n)
unfolding claims_by_pool count_claims
listed-AreCounts [] m n a f room = a
listed-AreCounts (c ∷ cs) m n a f room =
    listed-AreCounts cs (add_claim c m) (count_claim c n) (one-AreCounts c m n a f.0 (omega arith))
      f.1 (omega (arith, length-add_claim c m))

IsApart : Table Key Key → Table Key Key → Type 0
IsApart xs ys = (k p : Key) → lookup k xs ≡ some p → lookup k ys ≡ none

IsApart-next :
    (c p : Key) (xs ys : Table Key Key)
    → lookup c xs ≡ none
    → IsApart ((c, p) ∷ xs) ys
    → IsApart xs (insert c p ys)
unfolding IsApart lookup
IsApart-next c p xs ys e h k q i =
    ground (arith, h k q, lookup-insert c k p ys, key_eq_iff c k, e, i)

first_apart : (c p : Key) (xs ys : Table Key Key) → IsApart ((c, p) ∷ xs) ys → lookup c ys ≡ none
unfolding IsApart lookup
first_apart c p xs ys h = h c p (ground (arith, key_eq_iff c c))

length-claims_by_pool :
    (cs : List Claim) (m : Table Key Key) → length (claims_by_pool cs m) ≤ length m + length cs
unfolding claims_by_pool
length-claims_by_pool [] m = omega arith
length-claims_by_pool (c ∷ cs) m =
    omega (arith, length-claims_by_pool cs (add_claim c m), length-add_claim c m)

replace_claims-AreCounts :
    (xs m : Table Key Key) (n : Table Key ℤ)
    → IsMap xs
    → IsApart xs m
    → AreCounts m n
    → length m + length xs < 2147483647
    → AreCounts ((replace_claims xs m n).0) ((replace_claims xs m n).1)
unfolding replace_claims
replace_claims-AreCounts [] m n u f a room = a
replace_claims-AreCounts ((c, p) ∷ xs) m n u f a room =
    replace_claims-AreCounts xs (insert c p m) (count_up p n) u.1 (IsApart-next c p xs m u.0 f)
      (insert_new m n a c p (first_apart c p xs m f) (omega arith))
      (omega (arith, length-insert c p m))

-- The table that is built has the entries of the table that was given.
entries_with-replace_claims :
    (q : Key) (xs m : Table Key Key) (n : Table Key ℤ)
    → IsMap xs
    → IsApart xs m
    → entries_with q ((replace_claims xs m n).0) ≡ entries_with q xs + entries_with q m
unfolding replace_claims entries_with
entries_with-replace_claims q [] m n u f = omega arith
entries_with-replace_claims q ((c, p) ∷ xs) m n u f = ground (
  arith,
  entries_with-replace_claims q xs (insert c p m) (count_up p n) u.1 (IsApart-next c p xs m u.0 f),
  entries_with-insert q p c m,
  first_apart c p xs m f,
  ap (λ o. one_if o q) (first_apart c p xs m f),
)

IsApart-empty : (xs : Table Key Key) → IsApart xs []
unfolding IsApart lookup
IsApart-empty xs k p e = refl

empty-AreCounts : AreCounts [] []
unfolding count_of lookup entries_with
empty-AreCounts = record { is_map = tt; exact = λ q. refl }

-- A refreshed index has exact counts, and counts for each pool the claims that a direct listing of
-- the same claims counts for it, where claims have distinct names and are fewer than 2^31 - 1.
pub refresh_pool_index-IsExact :
    (pools : List WarmPool) (templates : List Template) (claims : List Claim) (idx : PoolIndex)
    → AreFresh claims []
    → length claims < 2147483647
    → IsExact (refresh_pool_index pools templates claims idx)
      × ((q : Key)
          → count_of q (refresh_pool_index pools templates claims idx).claim_counts
            ≡ count_of q (count_claims claims []))
unfolding refresh_pool_index replace entries_with
refresh_pool_index-IsExact pools templates claims idx f room =
    let direct = listed-AreCounts claims [] [] empty-AreCounts f (omega arith) in
    let table = claims_by_pool claims [] in
    let built =
      replace_claims-AreCounts table [] [] direct.is_map (IsApart-empty table) empty-AreCounts
        (omega (arith, length-claims_by_pool claims [])) in
    (
      built,
      λ q. ground (
        arith,
        built.exact q,
        direct.exact q,
        entries_with-replace_claims q table [] [] direct.is_map (IsApart-empty table),
      ),
    )
