-- ===== src/Guard/Config.antt =====
-- guard/gpu_node_guard/config.py: `Config`, and what the guard's parts read of it. A class attribute is a
-- field, and the environment an argument.
pub mod Harmless
use gpu_node_health.Base.{String, ◌<>◌, Bool, false, List, true}
use gpu_node_health.Base.Int.{ℤ, pos}
use gpu_node_health.Base.Strip.{strip, lower}
use gpu_node_health.Base.Env.{Env, getenv, int_setting, bool_setting, list_setting}
use gpu_node_health.Guard.Policy.Types.{PolicyConfig}
use gpu_node_health.Guard.Supervisor.{SupervisorConfig}
use gpu_node_health.Guard.World.{GuardConfig}

pub record Config : Type 0 where
  pub mode : String
  pub enforce_nodes : List String
  pub node_label_selector : String
  pub loop_interval_seconds : ℤ
  pub condition_min_age_seconds : ℤ
  pub min_healthy_nodes : ℤ
  pub max_cordons_per_window : ℤ
  pub rate_limit_window_seconds : ℤ
  pub exporter_supervision_enabled : Bool
  pub exporter_namespace : String
  pub exporter_label_selector : String
  pub exporter_port : ℤ
  pub exporter_timeout_seconds : ℤ
  pub exporter_unreachable_seconds : ℤ
  pub exporter_delete_cooldown_seconds : ℤ
  pub namespace : String
  pub pod_name : String
  pub lease_name : String
  pub lease_duration_seconds : ℤ
  pub listen_addr : String
  pub listen_port : ℤ

unfoldable pub mode_setting : Env → String
unfolding lower strip
mode_setting env = lower (strip (getenv env "GUARD_MODE" "observe"))

unfoldable pub config : Env → Config
unfolding mode_setting int_setting bool_setting list_setting
config env = record {
  mode = mode_setting env;
  enforce_nodes = list_setting env "GUARD_ENFORCE_NODES" "";
  node_label_selector = getenv env "GUARD_NODE_LABEL_SELECTOR" "gpu-health.amd.io/agent=true";
  loop_interval_seconds = int_setting env "GUARD_LOOP_INTERVAL_SECONDS" (pos 30);
  condition_min_age_seconds = int_setting env "GUARD_CONDITION_MIN_AGE_SECONDS" (pos 120);
  min_healthy_nodes = int_setting env "GUARD_MIN_HEALTHY_NODES" (pos 2);
  max_cordons_per_window = int_setting env "GUARD_MAX_CORDONS_PER_WINDOW" (pos 1);
  rate_limit_window_seconds = int_setting env "GUARD_RATE_LIMIT_WINDOW_SECONDS" (pos 3600);
  exporter_supervision_enabled = bool_setting env "GUARD_EXPORTER_SUPERVISION" false;
  exporter_namespace = getenv env "GUARD_EXPORTER_NAMESPACE" "kube-amd-gpu";
  exporter_label_selector =
      getenv env "GUARD_EXPORTER_LABEL_SELECTOR" "app.kubernetes.io/name=metrics-exporter";
  exporter_port = int_setting env "GUARD_EXPORTER_PORT" (pos 5000);
  exporter_timeout_seconds = int_setting env "GUARD_EXPORTER_TIMEOUT_SECONDS" (pos 10);
  exporter_unreachable_seconds = int_setting env "GUARD_EXPORTER_UNREACHABLE_SECONDS" (pos 900);
  exporter_delete_cooldown_seconds =
      int_setting env "GUARD_EXPORTER_DELETE_COOLDOWN_SECONDS" (pos 3600);
  namespace = getenv env "GUARD_NAMESPACE" "gpu-node-health";
  pod_name = getenv env "POD_NAME" "gpu-node-guard";
  lease_name = getenv env "GUARD_LEASE_NAME" "gpu-node-guard";
  lease_duration_seconds = int_setting env "GUARD_LEASE_DURATION_SECONDS" (pos 30);
  listen_addr = getenv env "LISTEN_ADDR" "0.0.0.0";
  listen_port = int_setting env "LISTEN_PORT" (pos 9102);
}

-- `Config.policy`
unfoldable pub policy_config : Config → PolicyConfig
policy_config c = record {
  mode = c.mode;
  enforce_nodes = c.enforce_nodes;
  condition_min_age_seconds = c.condition_min_age_seconds;
  min_healthy_nodes = c.min_healthy_nodes;
  max_cordons_per_window = c.max_cordons_per_window;
  rate_limit_window_seconds = c.rate_limit_window_seconds;
}

-- The configuration that the guard on a host works with. The identity is that of `Leader.__init__`.
unfoldable pub guard_config : Config → String → GuardConfig
unfolding policy_config
guard_config c hostname = record {
  policy = policy_config c;
  supervision = record {
    mode = c.mode;
    exporter_supervision_enabled = c.exporter_supervision_enabled;
    exporter_port = c.exporter_port;
    exporter_unreachable_seconds = c.exporter_unreachable_seconds;
    exporter_delete_cooldown_seconds = c.exporter_delete_cooldown_seconds;
  };
  namespace = c.namespace;
  exporter_namespace = c.exporter_namespace;
  identity = c.pod_name <> ("." <> hostname);
  lease_duration_seconds = c.lease_duration_seconds;
}
