-- ===== src/Pool/Snapshot.antt =====
-- Pool snapshots and the text helpers that build them: pool_policy.go, sandbox_template_builder.go
-- and the words of pkg/labels and pkg/scheduling.
pub mod Laws
use agent_env.Base.{
  ◌≡◌, Bool, true, false, not, if◌then◌else◌, Option, none, some, List, [], ◌∷◌, get_or,
}
use agent_env.Base.Int.{ℤ, pos, ltb_ℤ}
use agent_env.Base.Text.{Text, Text_eq, codes, is_empty, trim_space}
use agent_env.Base.Table.{Table, lookup, lookup_or}
use agent_env.Kube.{ObjectMeta, WarmPool, Template}

abbrev pub default_pool_profile : Text
default_pool_profile = codes "default"

abbrev pub default_policy_tenant : Text
default_policy_tenant = codes "default"

abbrev pub pool_profile_annotation : Text
pool_profile_annotation = codes "arl.infra.io/profile"

abbrev pub pool_state_annotation : Text
pool_state_annotation = codes "arl.infra.io/pool-state"

abbrev pub pool_autoscale_annotation : Text
pool_autoscale_annotation = codes "arl.infra.io/autoscale"

abbrev pub pool_last_used_annotation : Text
pool_last_used_annotation = codes "arl.infra.io/pool-last-used"

abbrev pub pool_state_running : Text
pool_state_running = codes "running"

abbrev pub pool_state_draining : Text
pool_state_draining = codes "draining"

abbrev pub pool_state_stopped : Text
pool_state_stopped = codes "stopped"

pub record PoolSnapshot : Type 0 where
  pub name : Text
  pub namespace : Text
  pub profile : Text
  pub image : Text
  pub desired_replicas : ℤ
  pub ready_replicas : ℤ
  pub allocated_replicas : ℤ

-- PoolSnapshot.WarmAvailable.
unfoldable pub warm_available : PoolSnapshot → ℤ
warm_available p = if ltb_ℤ p.ready_replicas (pos 0) then pos 0 else p.ready_replicas

-- firstNonEmpty: the first value with something other than spaces, trimmed.
unfoldable pub first_non_empty : List Text → Text
first_non_empty [] = []
first_non_empty (v ∷ vs) =
    let t = trim_space v in let rest = first_non_empty vs in if not (is_empty t) then t else rest

unfoldable pub normalize_profile : Text → Text
unfolding first_non_empty
normalize_profile profile = first_non_empty (profile ∷ default_pool_profile ∷ [])

unfoldable pub profile_from_object_meta : ObjectMeta → Text
profile_from_object_meta meta =
    let profile = trim_space (lookup_or [] pool_profile_annotation meta.annotations) in
    if not (is_empty profile)
    then profile
    else trim_space (lookup_or [] pool_profile_annotation meta.labels)

-- desiredSandboxWarmPoolReplicas.
unfoldable pub desired_replicas_of : WarmPool → ℤ
desired_replicas_of pool = get_or pool.replicas (pos 1)

-- primarySandboxTemplateImage.
unfoldable pub primary_template_image : Template → Text
primary_template_image t = elim (t.container_images) [ [] ↦ [] | image ∷ rest ↦ image ]

unfoldable pub pool_snapshot_from_objects : WarmPool → Option Template → ℤ → PoolSnapshot
pool_snapshot_from_objects pool template allocated =
    let image : Text = elim template [ none ↦ [] | some t ↦ primary_template_image t ] in
    let template_profile : Text = elim template [
      | none ↦ []
      | some t ↦ profile_from_object_meta t.meta
    ] in
    record {
      name = pool.meta.name;
      namespace = pool.meta.namespace;
      profile =
          first_non_empty
            (profile_from_object_meta pool.meta ∷ template_profile ∷ default_pool_profile ∷ []);
      image = image;
      desired_replicas = desired_replicas_of pool;
      ready_replicas = pool.ready_replicas;
      allocated_replicas = allocated;
    }
