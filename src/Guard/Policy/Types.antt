-- ===== src/Guard/Policy/Types.antt =====
-- The data of guard/gpu_node_guard/policy.py: conditions, nodes, decisions and the configuration.
use gpu_node_health.Base.{ℕ, String, Bool, Option, List, [], ◌∷◌}
use gpu_node_health.Base.Int.{ℤ}

-- An entry of `.status.conditions`. `too_young` is the mark `_too_young` of `trigger_level`.
pub record Condition : Type 0 where
  pub type : Option String
  pub status : Option String
  pub last_transition_time : Option String
  pub message : Option String
  pub too_young : Bool

-- `.metadata.name`, `.spec.unschedulable` and `.status.conditions`. The source reads a missing
-- parent like a missing field of it.
pub record Node : Type 0 where
  pub name : Option String
  pub unschedulable : Option Bool
  pub conditions : List Condition

abbrev pub gpu_unrecoverable : String
gpu_unrecoverable = "gpu-health.amd.io/GPUUnrecoverable"

abbrev pub gpu_workqueue_stalled : String
gpu_workqueue_stalled = "gpu-health.amd.io/GPUWorkqueueStalled"

abbrev pub gpu_engine_timeout : String
gpu_engine_timeout = "gpu-health.amd.io/GPUEngineTimeout"

abbrev pub gpu_probe_failed : String
gpu_probe_failed = "gpu-health.amd.io/GPUProbeFailed"

abbrev pub gpu_health_data_stale : String
gpu_health_data_stale = "gpu-health.amd.io/GPUHealthDataStale"

pub data Level : Type 0 where
  l1 l2 l3 : Level

-- The levels with their conditions, in descending severity.
abbrev pub level_rules : List (Level × List String)
level_rules =
    (l3, gpu_unrecoverable ∷ gpu_workqueue_stalled ∷ [])
    ∷ (l2, gpu_engine_timeout ∷ [])
    ∷ (l1, gpu_probe_failed ∷ [])
    ∷ []

pub data Action : Type 0 where
  cordon noop : Action

-- The constants `R_…`; the reason of a cordon is `cordoned`.
pub data Reason : Type 0 where
  healthy already_cordoned report_only too_young stale_data observe_mode out_of_scope : Reason
  capacity_floor rate_limit cordoned : Reason

-- `level` is `none` for the source's empty text.
pub record Decision : Type 0 where
  pub node : String
  pub action : Action
  pub reason : Reason
  pub level : Option Level
  pub condition : String
  pub message : String

pub record NodeState : Type 0 where
  pub node : String
  pub unschedulable : ℕ
  pub ready : ℕ

-- The object that `Config.policy` hands over. Durations are in seconds.
pub record PolicyConfig : Type 0 where
  pub mode : String
  pub enforce_nodes : List String
  pub condition_min_age_seconds : ℤ
  pub min_healthy_nodes : ℤ
  pub max_cordons_per_window : ℤ
  pub rate_limit_window_seconds : ℤ
