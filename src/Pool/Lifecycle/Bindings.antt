-- ===== src/Pool/Lifecycle/Bindings.antt =====
-- What it means that a pool is managed, stopped, and bound to a session or a claim.
use agent_env.Base.{
  ◌≡◌, refl, Bool, true, false, ◌⊎◌, inl, inr, List, [], ◌∷◌, In, arith, Bool-cases,
}
use agent_env.Base.Text.{Text, codes, is_empty, text_eq_iff}
use agent_env.Base.Int.{pos, eqb_ℤ_iff}
use agent_env.Kube.{WarmPool, Claim}
use agent_env.Pool.Snapshot.{
  desired_replicas_of, pool_state_annotation, pool_autoscale_annotation, pool_state_stopped,
}
use agent_env.Pool.Selector.{Result, ok, err}
use agent_env.Pool.Lifecycle.{
  word_at, managed_pool_annotation, is_managed_pool, pool_lifecycle_stopped, SessionBinding,
  allocated_pool, allocated_namespace, binds_session, binds_claim, any, pool_has_active_bindings,
}

-- The pool's annotation says that the gateway manages it.
abbrev pub IsManaged : WarmPool → Type 0
IsManaged pool = word_at managed_pool_annotation pool.meta ≡ codes "true"

-- The pool wants no replicas, its state says stopped, and its autoscaling is off.
abbrev pub IsStopped : WarmPool → Type 0
IsStopped pool =
    (desired_replicas_of pool ≡ pos 0)
    × (word_at pool_state_annotation pool.meta ≡ codes "stopped")
    × (word_at pool_autoscale_annotation pool.meta ≡ codes "false")

pub managed→IsManaged : (pool : WarmPool) → is_managed_pool pool ≡ true → IsManaged pool
unfolding is_managed_pool
managed→IsManaged pool h =
    (text_eq_iff (word_at managed_pool_annotation pool.meta) (codes "true")).0 h

pub stopped→IsStopped : (pool : WarmPool) → pool_lifecycle_stopped pool ≡ true → IsStopped pool
unfolding pool_lifecycle_stopped
stopped→IsStopped pool h = ground (
  arith,
  h,
  eqb_ℤ_iff (desired_replicas_of pool) (pos 0),
  text_eq_iff (word_at pool_state_annotation pool.meta) pool_state_stopped,
  text_eq_iff (word_at pool_autoscale_annotation pool.meta) (codes "false"),
)

pub running→not_IsStopped :
    (pool : WarmPool) → pool_lifecycle_stopped pool ≡ false → ¬ IsStopped pool
unfolding pool_lifecycle_stopped
running→not_IsStopped pool h s = ground (
  arith,
  h,
  s,
  eqb_ℤ_iff (desired_replicas_of pool) (pos 0),
  text_eq_iff (word_at pool_state_annotation pool.meta) pool_state_stopped,
  text_eq_iff (word_at pool_autoscale_annotation pool.meta) (codes "false"),
)

-- An open session runs in the pool: it names the pool, and no other namespace.
abbrev pub BindsSession : Text → Text → SessionBinding → Type 0
BindsSession name namespace s =
    (s.closed ≡ false)
    × (allocated_pool s ≡ name)
    × ((is_empty (allocated_namespace s) ≡ true) ⊎ (allocated_namespace s ≡ namespace))

-- A claim that is not being deleted names the pool.
abbrev pub BindsClaim : Text → Claim → Type 0
BindsClaim name c = (c.meta.deleting ≡ false) × (c.warm_pool_name ≡ name)

-- Neither an open session nor a claim of the List is bound to the pool, and the List succeeded.
pub record IsUnbound (name namespace : Text) (sessions : List SessionBinding)
    (claims : Result (List Claim)) : Type 0 where
  pub listed : List Claim
  pub answered : claims ≡ ok listed
  pub no_session : (s : SessionBinding) → In s sessions → ¬ BindsSession name namespace s
  pub no_claim : (c : Claim) → In c listed → ¬ BindsClaim name c

none_of :
    {A : Type 0} (p : A → Bool) (xs : List A) → any p xs ≡ false → (x : A) → In x xs → p x ≡ false
unfolding any
none_of p [] h x i = elim i [ ]
none_of p (y ∷ ys) h x (inl e) = rw e (ground (arith, h))
none_of p (y ∷ ys) h x (inr j) = none_of p ys (ground (arith, h)) x j

binds_session-BindsSession :
    (name namespace : Text) (s : SessionBinding)
    → BindsSession name namespace s
    → binds_session name namespace s ≡ true
unfolding binds_session
binds_session-BindsSession name namespace s h =
    ground
      (arith, h, text_eq_iff (allocated_pool s) name, text_eq_iff (allocated_namespace s) namespace)

binds_claim-BindsClaim : (name : Text) (c : Claim) → BindsClaim name c → binds_claim name c ≡ true
unfolding binds_claim
binds_claim-BindsClaim name c h = ground (arith, h, text_eq_iff c.warm_pool_name name)

pub unbound→IsUnbound :
    (name namespace : Text) (sessions : List SessionBinding) (claims : Result (List Claim))
    → pool_has_active_bindings name namespace sessions claims ≡ ok false
    → IsUnbound name namespace sessions claims
unfolding pool_has_active_bindings
unbound→IsUnbound name namespace sessions (err e) h =
    absurd (ground (arith, h, Bool-cases (any (binds_session name namespace) sessions)))
unbound→IsUnbound name namespace sessions (ok cs) h =
    let free : any (binds_session name namespace) sessions ≡ false = ground (arith, h) in
    let unclaimed : any (binds_claim name) cs ≡ false = ground (arith, h) in
    record {
      listed = cs;
      answered = refl;
      no_session = λ s i b. cc (
        none_of (binds_session name namespace) sessions free s i,
        binds_session-BindsSession name namespace s b,
      );
      no_claim = λ c i b.
          cc (none_of (binds_claim name) cs unclaimed c i, binds_claim-BindsClaim name c b);
    }
