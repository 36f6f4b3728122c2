-- ===== src/Config/Tests.antt =====
-- A configuration that is valid.
use agent_env.Base.{Bool, true, false, Option, some, []}
use agent_env.Base.Text.{Text, codes}
use agent_env.Base.Int.{ℤ, pos}
use agent_env.Config.{Config, above_zero}

abbrev any_url : Text → Bool
any_url t = true

abbrev plus : Text → Option ℤ
plus t = some (pos 1)

abbrev valid : Config
valid = record {
  http_client_timeout = pos 30;
  grpc_auth_secret_name = codes "token";
  iroh_relay_url = [];
  click_house_enabled = false;
  click_house_addr = [];
  click_house_database = [];
  click_house_password = [];
  gateway_port = pos 8080;
  gateway_namespace = codes "default";
  k8s_client_qps = above_zero;
  k8s_client_burst = pos 100;
  gateway_idle_timeout = pos 600;
  gateway_write_timeout = pos 0;
  gateway_sweep_interval = pos 60;
  observation_preview_bytes = pos 4096;
  devbox_idle_timeout = pos 0;
  internal_port = pos 8081;
  rate_limit_rps = above_zero;
  rate_limit_burst = pos 20;
  admission_queue_timeout = pos 0;
  admission_queue_poll_interval = pos 1;
  pool_autoscaler_interval = pos 15;
  pool_autoscaler_buffer = pos 1;
  pool_autoscaler_min_replicas = pos 1;
  pool_autoscaler_max_replicas = pos 8;
  managed_pool_gc_interval = pos 600;
  managed_pool_gc_min_idle_age = pos 5;
  managed_pool_gc_max_stopped = pos 128;
  default_sandbox_request_cpu = codes "1";
  default_sandbox_request_memory = codes "1Gi";
  default_sandbox_limit_cpu = codes "2";
  default_sandbox_limit_memory = codes "2Gi";
  default_ephemeral_storage_limit = codes "2Gi";
  default_ephemeral_storage_request = codes "1Gi";
  image_pull_policy = codes "Always";
  redis_enabled = false;
  redis_addr = [];
  sandbox_network_policy_management = codes "Managed";
  sandbox_seccomp_profile_type = codes "RuntimeDefault";
  sandbox_seccomp_localhost_profile = [];
}
