-- ===== src/Base/Table.antt =====
-- A Go map as an association list over keys with `==`. The order of the list stands for the order
-- in which `range` visits the map, which Go leaves open: statements range over every list.
use agent_env.Base.{length}
use agent_env.Base.Tests.{if◌then◌else◌, get_or}
use agent_env.Base.Equality.{Eq, ◌==◌}
use agent_env.Base.Lists.{In}
use Prim.Native.Nat.{ℕ, suc, ◌+◌, ◌≤◌}
use mathlib.Core.Path.{◌≡◌, refl}
use mathlib.Core.Option.{Option, none, some}
use mathlib.Core.List.{List, [], ◌∷◌}
use native.Mathlib.Omega.{arith}

abbrev pub Table : Type 0 → Type 0 → Type 0
Table K V = List (K × V)

module _ {K V : Type 0} ⦃e : Eq K⦄ where
  -- `m[key]` with its presence flag.
  unfoldable pub lookup : K → Table K V → Option V
  lookup key [] = none
  lookup key ((other, value) ∷ rest) = if other == key then some value else lookup key rest

  -- `m[key] = value`.
  unfoldable pub insert : K → V → Table K V → Table K V
  insert key value [] = (key, value) ∷ []
  insert key value ((other, old) ∷ rest) =
      if other == key then (key, value) ∷ rest else (other, old) ∷ insert key value rest

  -- `delete(m, k)`.
  unfoldable pub delete : K → Table K V → Table K V
  delete k [] = []
  delete k ((j, w) ∷ m) = let rest = delete k m in if j == k then rest else (j, w) ∷ rest

  -- A map has one entry for a key.
  abbrev pub IsMap : Table K V → Type 0
  IsMap [] = Unit {0}
  IsMap ((k, v) ∷ m) = (lookup k m ≡ none) × IsMap m

  pub lookup-insert :
      (key at : K) (value : V) (m : Table K V)
      → lookup at (insert key value m) ≡ (if key == at then some value else lookup at m)
  unfolding lookup insert
  lookup-insert key at value [] = refl
  lookup-insert key at value ((other, old) ∷ rest) = ground (
    arith,
    e.equals_iff key at,
    e.equals_iff other key,
    e.equals_iff other at,
    lookup-insert key at value rest,
  )

  pub lookup-delete :
      (k j : K) (m : Table K V) → lookup j (delete k m) ≡ (if k == j then none else lookup j m)
  unfolding lookup delete
  lookup-delete k j [] = ground arith
  lookup-delete k j ((i, w) ∷ m) =
      ground (arith, e.equals_iff k j, e.equals_iff i k, e.equals_iff i j, lookup-delete k j m)

  pub insert-IsMap : (k : K) (v : V) (m : Table K V) → IsMap m → IsMap (insert k v m)
  unfolding insert lookup
  insert-IsMap k v [] h = (refl, tt)
  insert-IsMap k v ((j, w) ∷ m) h =
      ground (arith, e.equals_iff j k, e.equals_iff k j, insert-IsMap k v m, lookup-insert k j v m)

  pub delete-IsMap : (k : K) (m : Table K V) → IsMap m → IsMap (delete k m)
  unfolding delete lookup
  delete-IsMap k [] h = tt
  delete-IsMap k ((j, w) ∷ m) h =
      ground (arith, e.equals_iff k j, delete-IsMap k m, lookup-delete k j m)

  delete_absent : (k : K) (m : Table K V) → lookup k m ≡ none → delete k m ≡ m
  unfolding delete lookup
  delete_absent k [] h = refl
  delete_absent k ((j, w) ∷ m) h = ground (arith, delete_absent k m)

  pub length-insert : (k : K) (v : V) (m : Table K V) → length (insert k v m) ≤ length m + 1
  unfolding insert
  length-insert k v [] = omega arith
  length-insert k v ((j, w) ∷ m) = ground (arith, length-insert k v m)

  pub length-delete : (k : K) (m : Table K V) → length (delete k m) ≤ length m
  unfolding delete
  length-delete k [] = omega arith
  length-delete k ((j, w) ∷ m) = ground (arith, length-delete k m)

  -- `range` meets exactly the entries that indexing finds.
  pub In-of_lookup : (k : K) (v : V) (m : Table K V) → lookup k m ≡ some v → In (k, v) m
  unfolding lookup
  In-of_lookup k v [] h = cc
  In-of_lookup k v ((j, w) ∷ m) h = ground (arith, e.equals_iff j k, In-of_lookup k v m)

  pub lookup-of_In : (k : K) (v : V) (m : Table K V) → IsMap m → In (k, v) m → lookup k m ≡ some v
  unfolding lookup
  lookup-of_In k v [] h i = elim i [ ]
  lookup-of_In k v ((j, w) ∷ m) h i = ground (arith, e.equals_iff j k, lookup-of_In k v m)

  -- `m[k]` where a missing key reads as the zero value.
  abbrev pub lookup_or : V → K → Table K V → V
  lookup_or z k m = get_or (lookup k m) z

abbrev pub one_if : {V : Type 0} ⦃f : Eq V⦄ → Option V → V → ℕ
one_if none q = 0
one_if (some v) q = if v == q then 1 else 0

-- How many entries of a map have a value.
module _ {K V : Type 0} ⦃e : Eq K⦄ ⦃f : Eq V⦄ where
  unfoldable pub entries_with : V → Table K V → ℕ
  entries_with q [] = 0
  entries_with q ((k, v) ∷ m) = let rest = entries_with q m in if v == q then suc rest else rest

  -- A write moves its key from the value that it had to the new one.
  pub entries_with-insert :
      (q v : V) (k : K) (m : Table K V)
      → entries_with q (insert k v m) + one_if (lookup k m) q ≡ entries_with q m + one_if (some v) q
  unfolding entries_with insert lookup
  entries_with-insert q v k [] = ground arith
  entries_with-insert q v k ((j, w) ∷ m) =
      ground (arith, e.equals_iff j k, entries_with-insert q v k m)

  entries_with-delete_absent :
      (q : V) (k : K) (m : Table K V)
      → lookup k m ≡ none
      → entries_with q (delete k m) ≡ entries_with q m
  entries_with-delete_absent q k m h = rw (delete_absent k m h)

  pub entries_with-delete :
      (q : V) (k : K) (m : Table K V)
      → IsMap m
      → entries_with q (delete k m) + one_if (lookup k m) q ≡ entries_with q m
  unfolding entries_with delete lookup
  entries_with-delete q k [] h = omega arith
  entries_with-delete q k ((j, w) ∷ m) h =
      ground (arith, e.equals_iff j k, entries_with-delete q k m, entries_with-delete_absent q k m)

  pub entries_with-le-length : (q : V) (m : Table K V) → entries_with q m ≤ length m
  unfolding entries_with
  entries_with-le-length q [] = omega arith
  entries_with-le-length q ((k, v) ∷ m) = ground (arith, entries_with-le-length q m)

  -- `for k, v := range m { if v == q { delete(m, k) } }`
  unfoldable pub delete_value : V → Table K V → Table K V
  delete_value q [] = []
  delete_value q ((k, v) ∷ m) =
      let rest = delete_value q m in if v == q then rest else (k, v) ∷ rest

  pub length-delete_value : (q : V) (m : Table K V) → length (delete_value q m) ≤ length m
  unfolding delete_value
  length-delete_value q [] = omega arith
  length-delete_value q ((k, v) ∷ m) = ground (arith, length-delete_value q m)

  lookup-delete_value-none :
      (q : V) (k : K) (m : Table K V) → lookup k m ≡ none → lookup k (delete_value q m) ≡ none
  unfolding delete_value lookup
  lookup-delete_value-none q k [] h = refl
  lookup-delete_value-none q k ((j, w) ∷ m) h = ground (arith, lookup-delete_value-none q k m)

  pub delete_value-IsMap : (q : V) (m : Table K V) → IsMap m → IsMap (delete_value q m)
  unfolding delete_value
  delete_value-IsMap q [] h = tt
  delete_value-IsMap q ((k, v) ∷ m) h =
      ground (arith, delete_value-IsMap q m h.1, lookup-delete_value-none q k m h.0)

  pub entries_with-delete_value :
      (q r : V) (m : Table K V)
      → entries_with r (delete_value q m) ≡ (if q == r then 0 else entries_with r m)
  unfolding delete_value entries_with
  entries_with-delete_value q r [] = ground arith
  entries_with-delete_value q r ((k, v) ∷ m) =
      ground (
        arith,
        f.equals_iff v q,
        f.equals_iff v r,
        f.equals_iff q r,
        entries_with-delete_value q r m,
      )
