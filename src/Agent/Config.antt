-- ===== src/Agent/Config.antt =====
-- agent/gpu_health_agent/config.py: `Config` over the environment, and its validation.
use gpu_node_health.Base.{String, Bool, true, false, Option, none, some, List, ◌=s=◌, if◌then◌else◌}
use gpu_node_health.Base.Int.{ℤ, pos}
use gpu_node_health.Base.Env.{Env, getenv, int_setting, bool_setting, list_setting}
use gpu_node_health.Agent.Census.{CensusConfig}

pub record Config : Type 0 where
  pub node_name : String
  pub listen_addr : String
  pub listen_port : ℤ
  pub collect_interval_seconds : ℤ
  pub kernlog_paths : List String
  pub kernlog_enabled : Bool
  pub dstate_enabled : Bool
  pub proc_path : String
  pub dstate_stuck_seconds : ℤ
  pub dstate_gpu_wchan_substrings : List String
  pub dstate_gpu_comm_prefixes : List String
  pub exporter_enabled : Bool
  pub exporter_timeout_seconds : ℤ
  pub exporter_url : String
  pub exporter_service_namespace : String
  pub exporter_service_name : String
  pub exporter_port : ℤ
  pub exporter_metrics_path : String
  pub patch_counters_enabled : Bool
  pub patch_counters_path : String
  pub node_conditions_enabled : Bool
  pub node_condition_interval_seconds : ℤ

unfoldable pub config : Env → Config
unfolding int_setting bool_setting list_setting
config env = record {
  node_name = getenv env "NODE_NAME" "";
  listen_addr = getenv env "LISTEN_ADDR" "0.0.0.0";
  listen_port = int_setting env "LISTEN_PORT" (pos 9101);
  collect_interval_seconds = int_setting env "COLLECT_INTERVAL_SECONDS" (pos 15);
  kernlog_paths = list_setting env "KERNLOG_PATHS" "/var/log/kern.log,/var/log/syslog";
  kernlog_enabled = bool_setting env "KERNLOG_ENABLED" true;
  dstate_enabled = bool_setting env "DSTATE_ENABLED" true;
  proc_path = getenv env "PROC_PATH" "/proc";
  dstate_stuck_seconds = int_setting env "DSTATE_STUCK_SECONDS" (pos 60);
  dstate_gpu_wchan_substrings =
      list_setting env "DSTATE_GPU_WCHAN_SUBSTRINGS" "dma_fence,amdgpu,ttm_,drm_,kfd_";
  dstate_gpu_comm_prefixes = list_setting env "DSTATE_GPU_COMM_PREFIXES" "kworker/u26";
  exporter_enabled = bool_setting env "EXPORTER_ENABLED" true;
  exporter_timeout_seconds = int_setting env "EXPORTER_TIMEOUT_SECONDS" (pos 10);
  exporter_url = getenv env "EXPORTER_URL" "";
  exporter_service_namespace = getenv env "EXPORTER_SERVICE_NAMESPACE" "kube-amd-gpu";
  exporter_service_name = getenv env "EXPORTER_SERVICE_NAME" "default-metrics-exporter";
  exporter_port = int_setting env "EXPORTER_PORT" (pos 5000);
  exporter_metrics_path = getenv env "EXPORTER_METRICS_PATH" "/metrics";
  patch_counters_enabled = bool_setting env "PATCH_COUNTERS_ENABLED" true;
  patch_counters_path = getenv env "PATCH_COUNTERS_PATH" "/sys/module/amd_sched/parameters";
  node_conditions_enabled = bool_setting env "NODE_CONDITIONS_ENABLED" false;
  node_condition_interval_seconds = int_setting env "NODE_CONDITION_INTERVAL_SECONDS" (pos 30);
}

-- `Config.validate`; `none` is the SystemExit.
unfoldable pub validate : Config → Option (Unit {0})
validate c = if c.node_name =s= "" then none else some tt

-- What `Collector.__init__` gives the census.
unfoldable pub census_config : Config → CensusConfig
census_config c = record {
  stuck_seconds = c.dstate_stuck_seconds;
  gpu_comm_prefixes = c.dstate_gpu_comm_prefixes;
  gpu_wchan_substrings = c.dstate_gpu_wchan_substrings;
}
