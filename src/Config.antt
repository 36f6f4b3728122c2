-- ===== src/Config.antt =====
-- The validation of the configuration: Validate and validatePositiveQuantity in
-- pkg/config/config.go, over the fields that they read. url.Parse and resource.ParseQuantity are
-- arguments. Of a floating-point field only the comparison with 0 counts. Durations are nanoseconds.
pub mod Limits
mod Tests
use agent_env.Base.{
  ◌++◌, map, ℕ, zero, suc, ◌+◌, ◌-◌, ◌*◌, ◌%◌, ◌≤◌, ◌<◌, ◌≡◌, ◌≢◌, refl, sym, ap, ap₂, subst, ◌∙◌,
  Bool, true, false, not, ◌&&◌, ◌||◌, if◌then◌else◌, Option, none, some, List, [], ◌∷◌, ◌++◌, map,
  ◌==◌, get_or, select, inl, inr, ◌⊎◌, ◌↔◌, length, arith, Bool-cases, Option-cases, In, All,
  All-In, eqb, ltb, leb, is_some,
}
use agent_env.Base.Text.{Text, Text_eq, codes, is_empty, trim_space, to_lower}
use agent_env.Base.Int.{ℤ, pos, ltb_ℤ, eqb_ℤ}
use agent_env.Auth.{equal_fold}

pub data Float : Type 0 where
  not_above_zero above_zero not_a_number : Float

unfoldable pub is_not_above_zero : Float → Bool
is_not_above_zero not_above_zero = true
is_not_above_zero above_zero = false
is_not_above_zero not_a_number = false

pub record Config : Type 0 where
  pub http_client_timeout : ℤ
  pub grpc_auth_secret_name : Text
  pub iroh_relay_url : Text
  pub click_house_enabled : Bool
  pub click_house_addr : Text
  pub click_house_database : Text
  pub click_house_password : Text
  pub gateway_port : ℤ
  pub gateway_namespace : Text
  pub k8s_client_qps : Float
  pub k8s_client_burst : ℤ
  pub gateway_idle_timeout : ℤ
  pub gateway_write_timeout : ℤ
  pub gateway_sweep_interval : ℤ
  pub observation_preview_bytes : ℤ
  pub devbox_idle_timeout : ℤ
  pub internal_port : ℤ
  pub rate_limit_rps : Float
  pub rate_limit_burst : ℤ
  pub admission_queue_timeout : ℤ
  pub admission_queue_poll_interval : ℤ
  pub pool_autoscaler_interval : ℤ
  pub pool_autoscaler_buffer : ℤ
  pub pool_autoscaler_min_replicas : ℤ
  pub pool_autoscaler_max_replicas : ℤ
  pub managed_pool_gc_interval : ℤ
  pub managed_pool_gc_min_idle_age : ℤ
  pub managed_pool_gc_max_stopped : ℤ
  pub default_sandbox_request_cpu : Text
  pub default_sandbox_request_memory : Text
  pub default_sandbox_limit_cpu : Text
  pub default_sandbox_limit_memory : Text
  pub default_ephemeral_storage_limit : Text
  pub default_ephemeral_storage_request : Text
  pub image_pull_policy : Text
  pub redis_enabled : Bool
  pub redis_addr : Text
  pub sandbox_network_policy_management : Text
  pub sandbox_seccomp_profile_type : Text
  pub sandbox_seccomp_localhost_profile : Text

-- Each error by the field that it is about.
pub data ConfigError : Type 0 where
  bad_http_client_timeout bad_grpc_auth_secret_name bad_iroh_relay_url : ConfigError
  bad_click_house_addr bad_click_house_database bad_click_house_password : ConfigError
  bad_gateway_port bad_gateway_namespace bad_k8s_client_qps bad_k8s_client_burst : ConfigError
  bad_gateway_idle_timeout bad_gateway_write_timeout bad_gateway_sweep_interval : ConfigError
  bad_observation_preview_bytes bad_devbox_idle_timeout : ConfigError
  bad_internal_port same_ports bad_rate_limit_rps bad_rate_limit_burst : ConfigError
  bad_admission_queue_timeout bad_admission_queue_poll_interval : ConfigError
  bad_autoscaler_interval bad_autoscaler_buffer : ConfigError
  bad_autoscaler_min bad_autoscaler_max max_below_min : ConfigError
  bad_gc_interval bad_gc_min_idle_age bad_gc_max_stopped : ConfigError
  quantity_missing quantity_not_parsed quantity_not_positive : Text → ConfigError
  bad_image_pull_policy bad_redis_addr bad_network_policy_management : ConfigError
  bad_seccomp_profile_type no_seccomp_localhost_profile : ConfigError

-- `if fails { return err }`.
unfoldable pub check : Bool → ConfigError → Option ConfigError
check fails e = if fails then some e else none

-- Checks one after another, up to the first that fails.
unfoldable pub first_error : List (Option ConfigError) → Option ConfigError
first_error [] = none
first_error (none ∷ rest) = first_error rest
first_error (some e ∷ rest) = some e

unfoldable pub is_negative : ℤ → Bool
is_negative n = ltb_ℤ n (pos 0)

unfoldable pub is_not_positive : ℤ → Bool
is_not_positive n = not (ltb_ℤ (pos 0) n)

unfoldable pub is_no_port : ℤ → Bool
is_no_port n = ltb_ℤ n (pos 1) || ltb_ℤ (pos 65535) n

-- The checks up to the gateway's, where `parses_url` says whether url.Parse takes a text.
unfoldable pub backend_checks : (Text → Bool) → Config → List (Option ConfigError)
unfolding check is_not_positive
backend_checks parses_url c =
    check (is_not_positive c.http_client_timeout) bad_http_client_timeout
    ∷ check (is_empty c.grpc_auth_secret_name) bad_grpc_auth_secret_name
    ∷ check (not (is_empty c.iroh_relay_url) && not (parses_url c.iroh_relay_url))
        bad_iroh_relay_url
    ∷ check (c.click_house_enabled && is_empty c.click_house_addr) bad_click_house_addr
    ∷ check (c.click_house_enabled && is_empty c.click_house_database) bad_click_house_database
    ∷ check (c.click_house_enabled && is_empty c.click_house_password) bad_click_house_password
    ∷ []

unfoldable pub gateway_checks : Config → List (Option ConfigError)
unfolding check is_not_positive is_negative is_no_port is_not_above_zero
gateway_checks c =
    check (is_no_port c.gateway_port) bad_gateway_port
    ∷ check (is_empty (trim_space c.gateway_namespace)) bad_gateway_namespace
    ∷ check (is_not_above_zero c.k8s_client_qps) bad_k8s_client_qps
    ∷ check (ltb_ℤ c.k8s_client_burst (pos 1)) bad_k8s_client_burst
    ∷ check (is_negative c.gateway_idle_timeout) bad_gateway_idle_timeout
    ∷ check (is_negative c.gateway_write_timeout) bad_gateway_write_timeout
    ∷ check (is_not_positive c.gateway_sweep_interval) bad_gateway_sweep_interval
    ∷ check (is_negative c.observation_preview_bytes) bad_observation_preview_bytes
    ∷ check (is_negative c.devbox_idle_timeout) bad_devbox_idle_timeout
    ∷ []

unfoldable pub internal_checks : Config → List (Option ConfigError)
unfolding check is_no_port is_not_above_zero
internal_checks c =
    check (is_no_port c.internal_port) bad_internal_port
    ∷ check (eqb_ℤ c.internal_port c.gateway_port) same_ports
    ∷ check (is_not_above_zero c.rate_limit_rps) bad_rate_limit_rps
    ∷ check (ltb_ℤ c.rate_limit_burst (pos 1)) bad_rate_limit_burst
    ∷ []

unfoldable pub autoscaler_checks : Config → List (Option ConfigError)
unfolding check is_not_positive is_negative
autoscaler_checks c =
    let max = c.pool_autoscaler_max_replicas in
    check (ltb_ℤ (pos 0) max && ltb_ℤ max c.pool_autoscaler_min_replicas) max_below_min ∷ []

unfoldable pub pool_checks : Config → List (Option ConfigError)
unfolding check is_not_positive is_negative
pool_checks c =
    check (is_negative c.admission_queue_timeout) bad_admission_queue_timeout
    ∷ check (is_not_positive c.admission_queue_poll_interval) bad_admission_queue_poll_interval
    ∷ check (is_not_positive c.pool_autoscaler_interval) bad_autoscaler_interval
    ∷ check (is_negative c.pool_autoscaler_buffer) bad_autoscaler_buffer
    ∷ check (is_negative c.pool_autoscaler_min_replicas) bad_autoscaler_min
    ∷ check (is_negative c.pool_autoscaler_max_replicas) bad_autoscaler_max
    ∷ []

unfoldable pub gc_checks : Config → List (Option ConfigError)
unfolding check is_not_positive is_negative
gc_checks c =
    check (is_not_positive c.managed_pool_gc_interval) bad_gc_interval
    ∷ check (is_negative c.managed_pool_gc_min_idle_age) bad_gc_min_idle_age
    ∷ check (is_negative c.managed_pool_gc_max_stopped) bad_gc_max_stopped
    ∷ []

-- validatePositiveQuantity, where `sign_of` is the sign of the quantity that a text stands for.
unfoldable pub validate_positive_quantity : (Text → Option ℤ) → Text × Text → Option ConfigError
unfolding is_not_positive
validate_positive_quantity sign_of (name, value) =
    let parsed : Option ConfigError = elim (sign_of value) [
      | none ↦ some (quantity_not_parsed name)
      | some sign ↦ if is_not_positive sign then some (quantity_not_positive name) else none
    ] in
    if is_empty (trim_space value) then some (quantity_missing name) else parsed

abbrev pub sandbox_quantities : Config → List (Text × Text)
sandbox_quantities c =
    (codes "sandbox default request cpu", c.default_sandbox_request_cpu)
    ∷ (codes "sandbox default request memory", c.default_sandbox_request_memory)
    ∷ (codes "sandbox default limit cpu", c.default_sandbox_limit_cpu)
    ∷ (codes "sandbox default limit memory", c.default_sandbox_limit_memory)
    ∷ (codes "sandbox default ephemeral storage limit", c.default_ephemeral_storage_limit)
    ∷ (codes "sandbox default ephemeral storage request", c.default_ephemeral_storage_request)
    ∷ []

unfoldable pub is_one_of : Text → List Text → Bool
is_one_of s [] = false
is_one_of s (w ∷ ws) = s == w || is_one_of s ws

unfoldable pub sandbox_checks : Config → List (Option ConfigError)
unfolding check is_one_of equal_fold
sandbox_checks c =
    let pull_policy = trim_space c.image_pull_policy in
    let network = to_lower (trim_space c.sandbox_network_policy_management) in
    let seccomp = trim_space c.sandbox_seccomp_profile_type in
    let profile = trim_space c.sandbox_seccomp_localhost_profile in
    check
      (not
        (is_one_of pull_policy (codes "Always" ∷ codes "IfNotPresent" ∷ codes "Never" ∷ [] ∷ [])))
      bad_image_pull_policy
    ∷ check (c.redis_enabled && is_empty (trim_space c.redis_addr)) bad_redis_addr
    ∷ check (not (is_one_of network ([] ∷ codes "managed" ∷ codes "unmanaged" ∷ [])))
        bad_network_policy_management
    ∷ check
        (not (
          is_one_of (to_lower seccomp)
            ([] ∷ codes "runtimedefault" ∷ codes "unconfined" ∷ codes "localhost" ∷ [])))
        bad_seccomp_profile_type
    ∷ check (equal_fold seccomp (codes "localhost") && is_empty profile)
        no_seccomp_localhost_profile
    ∷ []

unfoldable pub validate : (Text → Bool) → (Text → Option ℤ) → Config → Option ConfigError
unfolding first_error backend_checks gateway_checks internal_checks pool_checks autoscaler_checks
    gc_checks validate_positive_quantity sandbox_checks
validate parses_url sign_of c = first_error (
    backend_checks parses_url c
    ++ (gateway_checks c
        ++ (internal_checks c
            ++ (pool_checks c
                ++ (autoscaler_checks c
                    ++ (gc_checks c
                        ++ (map (validate_positive_quantity sign_of) (sandbox_quantities c)
                            ++ sandbox_checks c)))))))
