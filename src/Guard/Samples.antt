-- ===== src/Guard/Samples.antt =====
-- Small fleets for the tests of the guard.
use gpu_node_health.Base.{String, true, false, Option, none, some, List, [], ◌∷◌}
use gpu_node_health.Base.Int.{pos, Instant, ◌-ℤ◌}
use gpu_node_health.Base.Dict.{get, put}
use gpu_node_health.Guard.Policy.{
  healthy_capacity, decide_node, decide, condition_index, is_true, ready, schedulable,
  trigger_level, is_spare, judge, first_true, mark_age, in_cordon_levels, is_cordon_level,
}
use gpu_node_health.Guard.Policy.Types.{Condition, Node, PolicyConfig, gpu_unrecoverable}
use gpu_node_health.Guard.Supervisor.{Pod, SupervisorConfig, Supervisor, fresh}
use gpu_node_health.Guard.World.{Lease, Answer, ok, Cluster, GuardConfig, World}

-- What a test of the policy unfolds.
unfoldable pub deciding : Unit {0}
unfolding decide decide_node judge healthy_capacity is_spare trigger_level condition_index is_true
    ready schedulable get put first_true mark_age in_cordon_levels is_cordon_level ◌-ℤ◌
deciding = tt

-- Every time stamp is the epoch.
abbrev pub epoch : Option String → Option Instant
epoch none = none
epoch (some s) = some (pos 0)

abbrev pub stamp : Instant → String
stamp t = "1970-01-01T00:00:00.000000Z"

-- 1000 seconds after the epoch.
abbrev pub noon : Instant
noon = pos 1000000000

abbrev pub holding : String → Condition
holding t = record {
  type = some t;
  status = some "True";
  last_transition_time = some "1970-01-01T00:00:00Z";
  message = some "m";
  too_young = false;
}

abbrev pub node : String → List Condition → Node
node name conditions = record {
  name = some name;
  unschedulable = none;
  conditions = holding "Ready" ∷ conditions;
}

abbrev pub sick : Node
sick = node "n1" (holding gpu_unrecoverable ∷ [])

abbrev pub fleet : List Node
fleet = sick ∷ node "n2" [] ∷ node "n3" [] ∷ []

abbrev pub policy : PolicyConfig
policy = record {
  mode = "enforce";
  enforce_nodes = [];
  condition_min_age_seconds = pos 120;
  min_healthy_nodes = pos 2;
  max_cordons_per_window = pos 1;
  rate_limit_window_seconds = pos 3600;
}

abbrev pub supervision : SupervisorConfig
supervision = record {
  mode = "enforce";
  exporter_supervision_enabled = true;
  exporter_port = pos 5000;
  exporter_unreachable_seconds = pos 900;
  exporter_delete_cooldown_seconds = pos 3600;
}

abbrev pub pod : Pod
pod = record {
  name = some "e1";
  node_name = some "n1";
  phase = some "Running";
  pod_ip = some "10.0.0.1";
}

abbrev pub waiting : Supervisor
waiting = record { unreachable_since = ("e1", pos 0) ∷ []; last_delete = [] }

abbrev pub guard : GuardConfig
guard = record {
  policy = policy;
  supervision = supervision;
  namespace = "gpu-node-health";
  exporter_namespace = "kube-amd-gpu";
  identity = "guard.host";
  lease_duration_seconds = pos 30;
}

abbrev pub cluster : Answer (Option Lease) → Answer (List Pod) → Cluster
cluster lease pods = record {
  lease = lease;
  create_ok = true;
  update_ok = true;
  nodes = ok fleet;
  cordon_ok = λ name. true;
  event_ok = λ event. true;
  pods = pods;
  delete_ok = λ name. true;
  scrape = λ url. false;
  error_text = λ call. "refused";
}

abbrev pub others_lease : Lease
others_lease = record {
  holder = some "other.host";
  renew_time = some "1970-01-01T00:00:00.000000Z";
  acquire_time = none;
  duration_seconds = pos 30;
}

abbrev pub start : World
start = record {
  leading = false;
  recent_cordons = [];
  supervisor = fresh;
  state = record {
    is_leader = false;
    last_loop = pos 0;
    loop_errors = 0;
    event_errors = 0;
    nodes_watched = 0;
    healthy_capacity = 0;
    cordons_total = 0;
    decisions = [];
    exporter_decisions = [];
    node_states = [];
  };
  calls = [];
}
