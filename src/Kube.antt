-- ===== src/Kube.antt =====
-- The Kubernetes objects that the gateway reads, with the fields that it reads. The types belong to agent-sandbox and apimachinery: only field access is used.
use agent_env.Base.{ℕ, ◌≡◌, ◌↔◌, Bool, true, ◌&&◌, Option, List, arith, Eq}
use agent_env.Base.Int.{ℤ}
use agent_env.Base.Text.{Text, text_eq, text_eq_iff}
use agent_env.Base.Table.{Table}

-- types.NamespacedName.
pub record Key : Type 0 where
  pub namespace : Text
  pub name : Text

abbrev pub key_eq : Key → Key → Bool
key_eq a b = text_eq a.namespace b.namespace && text_eq a.name b.name

pub key_eq_iff : (a b : Key) → (key_eq a b ≡ true) ↔ (a ≡ b)
key_eq_iff a b = ground (arith, text_eq_iff a.namespace b.namespace, text_eq_iff a.name b.name)

instance abbrev pub Key_eq : Eq Key
Key_eq = record { equals = key_eq; equals_iff = key_eq_iff }

-- An absent map of annotations or labels reads as an empty one.
pub record ObjectMeta : Type 0 where
  pub name : Text
  pub namespace : Text
  pub annotations : Table Text Text
  pub labels : Table Text Text
  -- DeletionTimestamp != nil
  pub deleting : Bool
  pub created_at : ℕ

pub record WarmPool : Type 0 where
  pub meta : ObjectMeta
  pub template_name : Text
  pub replicas : Option ℤ
  pub ready_replicas : ℤ

pub record Template : Type 0 where
  pub meta : ObjectMeta
  pub container_images : List Text

pub record Claim : Type 0 where
  pub meta : ObjectMeta
  pub warm_pool_name : Text

abbrev pub meta_key : ObjectMeta → Key
meta_key m = record { namespace = m.namespace; name = m.name }
