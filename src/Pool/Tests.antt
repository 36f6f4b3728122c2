-- ===== src/Pool/Tests.antt =====
-- Concrete objects that the tests of the pool model share.
pub mod Selection
pub mod Counting
pub mod Sizing
pub mod Planning
pub mod Collecting
use agent_env.Base.{
  ℕ, zero, suc, ◌+◌, ◌-◌, ◌*◌, ◌%◌, ◌≤◌, ◌<◌, ◌≡◌, ◌≢◌, refl, sym, ap, ap₂, subst, ◌∙◌, Bool, true,
  false, not, ◌&&◌, ◌||◌, if◌then◌else◌, Option, none, some, List, [], ◌∷◌, ◌++◌, map, ◌==◌, get_or,
  select, inl, inr, ◌⊎◌, ◌↔◌, length, arith, Bool-cases, Option-cases, In, All, All-In, eqb, ltb,
  leb, is_some,
}
use agent_env.Base.Text.{Text, codes}
use agent_env.Base.Int.{ℤ, pos}
use agent_env.Kube.{Key, ObjectMeta, WarmPool, Claim}
use agent_env.Pool.Snapshot.{PoolSnapshot}
use agent_env.Pool.Selector.{ResourceIntent}

abbrev pub meta_of : Text → ObjectMeta
meta_of name = record {
  name = name;
  namespace = codes "ml";
  annotations = [];
  labels = [];
  deleting = false;
  created_at = 0;
}

abbrev pub key_of : Text → Key
key_of name = record { namespace = codes "ml"; name = name }

abbrev pub claim_of : Text → Text → Claim
claim_of name pool = record { meta = meta_of name; warm_pool_name = pool }

abbrev pub going : Claim → Claim
going c = record c { meta = record (c.meta) { deleting = true } }

abbrev pub warm_pool : Text → ℕ → ℕ → WarmPool
warm_pool name desired ready = record {
  meta = meta_of name;
  template_name = codes "py-template";
  replicas = some (pos desired);
  ready_replicas = pos ready;
}

abbrev pub snapshot : Text → ℕ → PoolSnapshot
snapshot name ready = record {
  name = name;
  namespace = codes "ml";
  profile = codes "default";
  image = codes "py";
  desired_replicas = pos 2;
  ready_replicas = pos ready;
  allocated_replicas = pos 0;
}

abbrev pub intent : ResourceIntent
intent = record {
  scope = record { namespace = codes "ml"; principal = []; tenant = [] };
  profile = codes "default";
  image = codes "py";
  pinned_pool_name = [];
  managed = false;
  experiment_id = [];
  claim_env = false;
  allocation_timeout = pos 0;
}
