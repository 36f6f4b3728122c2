-- ===== src/Pool/Gc/Reasons.antt =====
-- What it means for the collector that a pool is referred to, and that it has been idle.
use agent_env.Base.{
  Option-cases, ◌≡◌, refl, true, false, inl, inr, Option, some, List, [], ◌∷◌, In, arith, ap, ◌≢◌,
}
use agent_env.Base.Text.{Text, is_empty, text_eq_iff, trim_space}
use agent_env.Base.Int.{ℤ, pos, ◌-ℤ◌, ◌≤ℤ◌, ltb_ℤ}
use agent_env.Kube.{Key, Key_eq, key_eq_iff, Claim}
use agent_env.Pool.Selector.{Result, ok, err}
use agent_env.Pool.Lifecycle.{SessionBinding, allocated_namespace}
use agent_env.Pool.Lifecycle.Bindings.{BindsSession, BindsClaim}
use agent_env.Pool.Gc.{
  session_reference, claim_reference, collect_references, in_use, managed_pool_references, sub_time,
}

-- A pool of the namespace, under a name that is not blank.
abbrev pub IsNamed : Text → Key → Type 0
IsNamed namespace k = (k.namespace ≡ namespace) × (is_empty (trim_space k.name) ≡ false)

-- The claims were listed, and no open session and no claim refers to the pool.
pub record IsUnreferred (namespace : Text) (sessions : List SessionBinding)
    (claims : Result (List Claim)) (k : Key) : Type 0 where
  pub listed : List Claim
  pub answered : claims ≡ ok listed
  pub no_session :
      (s : SessionBinding)
      → In s sessions
      → ¬ (IsNamed namespace k × BindsSession k.name namespace s)
  pub no_claim : (c : Claim) → In c listed → ¬ (IsNamed c.meta.namespace k × BindsClaim k.name c)

-- What a set of references leaves out, nothing refers to.
left_out :
    {A : Type 0} (refers : A → Option Key) (xs : List A) (keys : List Key) (k : Key)
    → in_use k (collect_references refers xs keys) ≡ false
    → (in_use k keys ≡ false) × ((x : A) → In x xs → refers x ≢ some k)
unfolding collect_references in_use
left_out refers [] keys k h = (h, λ x i. elim i [ ])
left_out refers (y ∷ ys) keys k h = elim (Option-cases (refers y)) [
  | inl e ↦
      let (a, b) = left_out refers ys keys k (rw e at h) in
      (a, λ x i. elim i [ inl q ↦ λ z. cc (ap refers q, e, z) | inr j ↦ b x j ])
  | inr (r, e) ↦
      let (a, b) = left_out refers ys (r ∷ keys) k (rw e at h) in
      (
        ground (arith, a),
        λ x i. elim i [
          | inl q ↦ λ z. ground (arith, a, key_eq_iff r k, ap refers q, e, z)
          | inr j ↦ b x j
        ],
      )
]

session_reference-BindsSession :
    (namespace : Text) (k : Key) (s : SessionBinding)
    → IsNamed namespace k
    → BindsSession k.name namespace s
    → session_reference namespace s ≡ some k
unfolding session_reference
session_reference-BindsSession namespace k s n b =
    ground
      (arith, n, b, text_eq_iff (allocated_namespace s) namespace, text_eq_iff namespace namespace)

claim_reference-BindsClaim :
    (k : Key) (c : Claim)
    → IsNamed c.meta.namespace k
    → BindsClaim k.name c
    → claim_reference c ≡ some k
unfolding claim_reference
claim_reference-BindsClaim k c n b = ground (arith, n, b)

pub unused→IsUnreferred :
    (namespace : Text) (sessions : List SessionBinding) (claims : Result (List Claim))
    (references : List Key) (k : Key)
    → managed_pool_references namespace sessions claims ≡ ok references
    → in_use k references ≡ false
    → IsUnreferred namespace sessions claims k
unfolding managed_pool_references
unused→IsUnreferred namespace sessions (err e) references k h u = absurd (cc h)
unused→IsUnreferred namespace sessions (ok cs) references k h u =
    let of_sessions = collect_references (session_reference namespace) sessions [] in
    let out : in_use k (collect_references claim_reference cs of_sessions) ≡ false = cc (h, u) in
    let (a, c) = left_out claim_reference cs of_sessions k out in
    let (b, d) = left_out (session_reference namespace) sessions [] k a in
    record {
      listed = cs;
      answered = refl;
      no_session = λ s i w. d s i (session_reference-BindsSession namespace k s w.0 w.1);
      no_claim = λ x i w. c x i (claim_reference-BindsClaim k x w.0 w.1);
    }

-- At least the minimum has passed since the last use.
abbrev pub IsIdle : ℤ → ℤ → ℤ → Type 0
IsIdle min_idle now last = min_idle ≤ℤ (now -ℤ last)

-- The difference that stops at the ends of an int64 is as long as the minimum only if the time is.
pub not_young-IsIdle :
    (min_idle now last : ℤ)
    → ltb_ℤ (pos 0) min_idle ≡ true
    → ltb_ℤ (sub_time now last) min_idle ≡ false
    → IsIdle min_idle now last
unfolding sub_time
not_young-IsIdle min_idle now last p h = ground (arith, p, h)
