-- ===== src/Pool/Selector.antt =====
-- DefaultPoolSelector and DefaultAdmissionController of pkg/gateway/pool_policy.go.
pub mod Order
pub mod Choice
pub mod Agreement
use agent_env.Base.{
  ℕ, ◌≡◌, Bool, true, false, not, ◌&&◌, ◌||◌, if◌then◌else◌, Option, none, some, List, [], ◌∷◌,
  select, ◌==◌,
}
use agent_env.Base.Int.{ℤ, ℤ_eq, pos, ltb_ℤ}
use agent_env.Base.Text.{Text, Text_eq, codes, is_empty, trim_space, text_lt}
use agent_env.Base.Sort.{sort}
use agent_env.Pool.Snapshot.{PoolSnapshot, warm_available, default_policy_tenant}

pub record RequestScope : Type 0 where
  pub namespace : Text
  pub principal : Text
  pub tenant : Text

-- RequestScope.normalized.
unfoldable pub normalized : RequestScope → RequestScope
normalized s = record s {
  namespace = if is_empty s.namespace then codes "default" else s.namespace;
  tenant = if is_empty s.tenant then default_policy_tenant else s.tenant;
}

pub record ResourceIntent : Type 0 where
  pub scope : RequestScope
  pub profile : Text
  pub image : Text
  pub pinned_pool_name : Text
  pub managed : Bool
  pub experiment_id : Text
  pub claim_env : Bool
  -- nanoseconds
  pub allocation_timeout : ℤ

pub data Reason : Type 0 where
  pinned_pool profile_capacity : Reason

pub record PoolSelection : Type 0 where
  pub pool_name : Text
  pub namespace : Text
  pub reason : Reason
  pub pool : PoolSnapshot

-- The errors of pool policy, without their texts. `at_capacity` is ErrPoolAtCapacity, also wrapped.
pub data PolicyError : Type 0 where
  profile_mismatch image_mismatch pool_not_found no_pool_for_profile no_pool : PolicyError
  at_capacity deadline_exceeded canceled namespace_not_allowed : PolicyError
  kube : ℕ → PolicyError

pub data Result {ℓ} (A : Type ℓ) : Type ℓ where
  ok : A → Result A
  err : PolicyError → Result A

infixl 5 ◌>>=◌
abbrev pub ◌>>=◌ {ℓ κ} : {A : Type ℓ} {B : Type κ} → Result A → (A → Result B) → Result B
ok a >>= f = f a
err e >>= f = err e

-- The profile and image filters, which an empty request passes.
unfoldable pub fits : Text → Text → PoolSnapshot → Bool
fits profile image p =
    (is_empty profile || p.profile == profile) && (is_empty image || p.image == image)

abbrev selection_of : Reason → PoolSnapshot → PoolSelection
selection_of why p = record { pool_name = p.name; namespace = p.namespace; reason = why; pool = p }

-- The loop of SelectPool over the pools for a pinned name.
unfoldable pub select_pinned : Text → Text → Text → Text → List PoolSnapshot → Result PoolSelection
select_pinned namespace name profile image [] = err pool_not_found
select_pinned namespace name profile image (p ∷ ps) =
    let rest = select_pinned namespace name profile image ps in
    if p.namespace == namespace && p.name == name
    then (if not (is_empty profile) && not (p.profile == profile)
        then err profile_mismatch
        else if not (is_empty image) && not (p.image == image)
        then err image_mismatch
        else ok (selection_of pinned_pool p))
    else rest

-- The `less` of SelectPool's sort: most warm capacity first, then by name.
unfoldable pub better : PoolSnapshot → PoolSnapshot → Bool
unfolding warm_available
better l r =
    if not (warm_available l == warm_available r)
    then ltb_ℤ (warm_available r) (warm_available l)
    else if not (l.ready_replicas == r.ready_replicas)
    then ltb_ℤ r.ready_replicas l.ready_replicas
    else if not (l.desired_replicas == r.desired_replicas)
    then ltb_ℤ r.desired_replicas l.desired_replicas
    else text_lt l.name r.name

-- The three tests that SelectPool skips a pool by.
unfoldable pub wanted : Text → Text → Text → PoolSnapshot → Bool
unfolding fits
wanted namespace profile image p = p.namespace == namespace && fits profile image p

unfoldable pub candidates : Text → Text → Text → List PoolSnapshot → List PoolSnapshot
candidates namespace profile image pools = select (wanted namespace profile image) pools

unfoldable pub select_first : Text → List PoolSnapshot → Result PoolSelection
select_first profile [] = if not (is_empty profile) then err no_pool_for_profile else err no_pool
select_first profile (p ∷ ps) = ok (selection_of profile_capacity p)

-- DefaultPoolSelector.SelectPool.
unfoldable pub select_pool : ResourceIntent → List PoolSnapshot → Result PoolSelection
unfolding select_first candidates normalized
select_pool intent pools =
    let scope = normalized intent.scope in
    let profile = trim_space intent.profile in
    let image = trim_space intent.image in
    if not (is_empty intent.pinned_pool_name)
    then select_pinned scope.namespace intent.pinned_pool_name profile image pools
    else select_first profile (sort better (candidates scope.namespace profile image pools))

pub data AdmissionReason : Type 0 where
  claim_env_cold_start warm_capacity_available pool_at_capacity no_decision : AdmissionReason

pub record AdmissionDecision : Type 0 where
  pub admitted : Bool
  pub reason : AdmissionReason
  pub warm : ℤ

-- DefaultAdmissionController.Admit: a decision, and an error beside it.
unfoldable pub admit : ResourceIntent → PoolSelection → AdmissionDecision × Option PolicyError
admit intent s =
    let warm = warm_available s.pool in
    if intent.claim_env
    then (record { admitted = true; reason = claim_env_cold_start; warm = warm }, none)
    else if ltb_ℤ (pos 0) warm
    then (record { admitted = true; reason = warm_capacity_available; warm = warm }, none)
    else (record { admitted = false; reason = pool_at_capacity; warm = pos 0 }, some at_capacity)
