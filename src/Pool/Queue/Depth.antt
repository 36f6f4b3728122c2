-- ===== src/Pool/Queue/Depth.antt =====
-- The depth of the admission queue against the requests that wait.
use agent_env.Base.{
  ℕ, zero, suc, ◌+◌, ◌≤◌, ◌<◌, ◌≡◌, refl, ap, subst, ◌∙◌, true, false, if◌then◌else◌, Option, none,
  some, List, [], ◌∷◌, ◌==◌, inl, inr, length, arith, Bool-cases, In,
}
use agent_env.Kube.{Key, Key_eq, key_eq, key_eq_iff}
use agent_env.Pool.Index.{count_of}
use agent_env.Pool.Queue.{increment_admission_queue, decrement_admission_queue}
use agent_env.Base.Int.{ℤ, pos, inc_int32, dec_int32, inc_int32-pos, dec_int32-pos}
use agent_env.Base.Text.{is_empty}
use agent_env.Base.Table.{Table, lookup, lookup-insert, lookup-delete}

-- How many of the waiting requests wait for a pool.
abbrev pub waiters_for : Key → List Key → ℕ
waiters_for k [] = 0
waiters_for k (w ∷ ws) = let rest = waiters_for k ws in if w == k then suc rest else rest

-- One request for the pool stops waiting.
abbrev pub leave : Key → List Key → List Key
leave k [] = []
leave k (w ∷ ws) = let rest = leave k ws in if w == k then ws else w ∷ rest

-- The queue's map while requests come and go in any order; fewer than 2^31 wait at a time.
pub data Serves : List Key → Table Key ℤ → Type 0 where
  idle : Serves [] []
  enters :
      (k : Key) (ws : List Key) (q : Table Key ℤ)
      → length ws < 2147483646
      → Serves ws q
      → Serves (k ∷ ws) (increment_admission_queue k q)
  leaves :
      (k : Key) (ws : List Key) (q : Table Key ℤ)
      → In k ws
      → Serves ws q
      → Serves (leave k ws) (decrement_admission_queue k q)

-- A pool has an entry just while somebody waits for it.
abbrev pub entry_for : ℕ → Option ℤ
entry_for zero = none
entry_for (suc n) = some (pos (suc n))

pub waiters_for-le : (k : Key) (ws : List Key) → waiters_for k ws ≤ length ws
waiters_for-le k [] = omega arith
waiters_for-le k (w ∷ ws) = ground (arith, waiters_for-le k ws)

waiters_for-leave :
    (k j : Key) (ws : List Key)
    → In k ws
    → waiters_for j ws ≡ waiters_for j (leave k ws) + (if k == j then 1 else 0)
waiters_for-leave k j [] i = elim i [ ]
waiters_for-leave k j (w ∷ ws) i =
    ground (arith, key_eq_iff w k, key_eq_iff w j, key_eq_iff k j, waiters_for-leave k j ws)

length-leave : (k : Key) (ws : List Key) → length (leave k ws) ≤ length ws
length-leave k [] = omega arith
length-leave k (w ∷ ws) = ground (arith, length-leave k ws)

pub Serves-bound : (ws : List Key) (q : Table Key ℤ) → Serves ws q → length ws < 2147483647
Serves-bound ws q idle = omega arith
Serves-bound ws q (enters k us p h s) = omega arith
Serves-bound ws q (leaves k us p i s) = omega (arith, Serves-bound us p s, length-leave k us)

pub increment_other :
    (k j : Key) (q : Table Key ℤ)
    → key_eq k j ≡ false
    → lookup j (increment_admission_queue k q) ≡ lookup j q
unfolding increment_admission_queue
increment_other k j q d = ground (arith, lookup-insert k j (inc_int32 (count_of k q)) q)

increment_self :
    (k : Key) (q : Table Key ℤ) (n : ℕ)
    → n < 2147483647
    → is_empty k.name ≡ false
    → lookup k q ≡ entry_for n
    → lookup k (increment_admission_queue k q) ≡ entry_for (suc n)
unfolding increment_admission_queue
increment_self k q zero h ne e =
    ground
      (arith, lookup-insert k k (inc_int32 (count_of k q)) q, key_eq_iff k k, inc_int32-pos 0 h)
increment_self k q (suc n) h ne e =
    ground (
      arith,
      lookup-insert k k (inc_int32 (count_of k q)) q,
      key_eq_iff k k,
      inc_int32-pos (suc n) h,
    )

pub decrement_other :
    (k j : Key) (q : Table Key ℤ)
    → key_eq k j ≡ false
    → lookup j (decrement_admission_queue k q) ≡ lookup j q
unfolding decrement_admission_queue
decrement_other k j q d =
    ground (arith, lookup-insert k j (dec_int32 (count_of k q)) q, lookup-delete k j q)

decrement_self :
    (k : Key) (q : Table Key ℤ) (n : ℕ)
    → n < 2147483647
    → is_empty k.name ≡ false
    → lookup k q ≡ entry_for (suc n)
    → lookup k (decrement_admission_queue k q) ≡ entry_for n
unfolding decrement_admission_queue
decrement_self k q zero h ne e = ground (
  arith,
  lookup-insert k k (dec_int32 (count_of k q)) q,
  lookup-delete k k q,
  key_eq_iff k k,
  dec_int32-pos 0 h,
)
decrement_self k q (suc n) h ne e = ground (
  arith,
  lookup-insert k k (dec_int32 (count_of k q)) q,
  lookup-delete k k q,
  key_eq_iff k k,
  dec_int32-pos (suc n) h,
)

-- The same, at a key that `==` finds equal.
pub increment_at :
    (k j : Key) (q : Table Key ℤ) (n : ℕ)
    → key_eq k j ≡ true
    → n < 2147483647
    → is_empty j.name ≡ false
    → lookup j q ≡ entry_for n
    → lookup j (increment_admission_queue k q) ≡ entry_for (suc n)
increment_at k j q n e h =
    subst
      (λ x.
        is_empty x.name ≡ false
        → lookup x q ≡ entry_for n
        → lookup x (increment_admission_queue k q) ≡ entry_for (suc n))
      ((key_eq_iff k j).0 e) (increment_self k q n h)

pub decrement_at :
    (k j : Key) (q : Table Key ℤ) (n : ℕ)
    → key_eq k j ≡ true
    → n < 2147483647
    → is_empty j.name ≡ false
    → lookup j q ≡ entry_for (suc n)
    → lookup j (decrement_admission_queue k q) ≡ entry_for n
decrement_at k j q n e h =
    subst
      (λ x.
        is_empty x.name ≡ false
        → lookup x q ≡ entry_for (suc n)
        → lookup x (decrement_admission_queue k q) ≡ entry_for n)
      ((key_eq_iff k j).0 e) (decrement_self k q n h)

-- However requests come and go, the queue's entry for a named pool is the number of requests that
-- wait for it, and there is no entry where nobody waits. Fewer than 2^31 - 1 wait at a time.
pub queue_depth :
    (ws : List Key) (q : Table Key ℤ) (j : Key)
    → Serves ws q
    → is_empty j.name ≡ false
    → lookup j q ≡ entry_for (waiters_for j ws)
unfolding lookup
queue_depth ws q j idle ne = refl
queue_depth ws q j (enters k us p h s) ne = elim (Bool-cases (key_eq k j)) [
  | inl e ↦ rw e (
      increment_at k j p (waiters_for j us) e (omega (arith, waiters_for-le j us)) ne
        (queue_depth us p j s ne))
  | inr e ↦ rw e (increment_other k j p e ∙ queue_depth us p j s ne)
]
queue_depth ws q j (leaves k us p i s) ne =
    let gone = waiters_for-leave k j us i in
    elim (Bool-cases (key_eq k j)) [
      | inl e ↦
          decrement_at k j p (waiters_for j (leave k us)) e
            (omega (arith, waiters_for-le j (leave k us), length-leave k us, Serves-bound us p s))
            ne
            (queue_depth us p j s ne
              ∙ ap entry_for {y = suc (waiters_for j (leave k us))} (ground (arith, e, gone)))
      | inr e ↦
          decrement_other k j p e ∙ queue_depth us p j s ne ∙ ap entry_for (ground (arith, e, gone))
    ]
