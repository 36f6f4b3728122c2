-- ===== src/Config/Limits.antt =====
-- What a configuration that is valid gives to the other parts of the gateway.
use agent_env.Base.{
  ◌++◌, map, ℕ, ◌≡◌, ◌≢◌, Bool, false, ◌&&◌, Option, none, some, List, ◌++◌, map, All,
}
use agent_env.Base.Text.{Text}
use agent_env.Base.Int.{ℤ, pos, ltb_ℤ, eqb_ℤ, ◌≤ℤ◌, ◌<ℤ◌}
use agent_env.Pool.Autoscaler.{AutoscalerConfig, pool_autoscale_target}
use agent_env.Config.{
  Config, ConfigError, is_negative, is_no_port, gateway_checks, internal_checks, pool_checks,
  autoscaler_checks, gc_checks, sandbox_checks, validate_positive_quantity, sandbox_quantities,
}

abbrev pub limits_of : Config → AutoscalerConfig
limits_of c = record {
  buffer = c.pool_autoscaler_buffer;
  min_replicas = c.pool_autoscaler_min_replicas;
  max_replicas = c.pool_autoscaler_max_replicas;
}

abbrev pub IsPort : ℤ → Type 0
IsPort n = (pos 1 ≤ℤ n) × (n ≤ℤ pos 65535)

-- A quantity that can be read and is above 0.
abbrev pub IsQuantity : (Text → Option ℤ) → Text × Text → Type 0
IsQuantity sign_of item = (sign : ℤ) × (sign_of item.1 ≡ some sign) × (pos 0 <ℤ sign)

pub record IsUsable (sign_of : Text → Option ℤ) (c : Config) : Type 0 where
  pub gateway_listens : IsPort c.gateway_port
  pub internal_listens : IsPort c.internal_port
  pub apart : c.internal_port ≢ c.gateway_port
  -- The autoscaler keeps between its limits, whatever the demand.
  pub not_below :
      (queued : ℤ) → c.pool_autoscaler_min_replicas ≤ℤ pool_autoscale_target (limits_of c) queued
  pub not_above :
      (queued : ℤ)
      → pos 0 <ℤ c.pool_autoscaler_max_replicas
      → pool_autoscale_target (limits_of c) queued ≤ℤ c.pool_autoscaler_max_replicas
  -- The collector has a maximum to keep.
  pub kept : (m : ℕ) × (c.managed_pool_gc_max_stopped ≡ pos m)
  pub sized : All (IsQuantity sign_of) (sandbox_quantities c)

-- The checks of each part pass.
record IsPassed (parses_url : Text → Bool) (sign_of : Text → Option ℤ) (c : Config) : Type 0 where
  gateway : is_no_port c.gateway_port ≡ false
  internal : is_no_port c.internal_port ≡ false
  differ : eqb_ℤ c.internal_port c.gateway_port ≡ false
  limits :
      (ltb_ℤ (pos 0) c.pool_autoscaler_max_replicas
        && ltb_ℤ c.pool_autoscaler_max_replicas c.pool_autoscaler_min_replicas)
      ≡ false
  most : is_negative c.managed_pool_gc_max_stopped ≡ false
  sizes : All (λ o. o ≡ none) (map (validate_positive_quantity sign_of) (sandbox_quantities c))

abbrev from_quantities : (Text → Option ℤ) → Config → List (Option ConfigError)
from_quantities sign_of c =
    map (validate_positive_quantity sign_of) (sandbox_quantities c) ++ sandbox_checks c

abbrev from_gc : (Text → Option ℤ) → Config → List (Option ConfigError)
from_gc sign_of c = gc_checks c ++ from_quantities sign_of c

abbrev from_autoscaler : (Text → Option ℤ) → Config → List (Option ConfigError)
from_autoscaler sign_of c = autoscaler_checks c ++ from_gc sign_of c

abbrev from_pools : (Text → Option ℤ) → Config → List (Option ConfigError)
from_pools sign_of c = pool_checks c ++ from_autoscaler sign_of c

abbrev from_internal : (Text → Option ℤ) → Config → List (Option ConfigError)
from_internal sign_of c = internal_checks c ++ from_pools sign_of c

abbrev from_gateway : (Text → Option ℤ) → Config → List (Option ConfigError)
from_gateway sign_of c = gateway_checks c ++ from_internal sign_of c
