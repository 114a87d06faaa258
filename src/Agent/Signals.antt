-- ===== src/Agent/Signals.antt =====
-- What the signal sources of agent/gpu_health_agent/signals hand to the evaluator: the dicts that
-- `KernelLogWatcher.snapshot`, `DStateCensus.collect` and `ExporterProbe.collect` return, as far as
-- it reads them. A disabled source hands over an empty dict.
use gpu_node_health.Base.{ℕ, String, Bool, Option, none, List, []}
use gpu_node_health.Base.Int.{Instant}
use gpu_node_health.Base.Dict.{Dict}

pub record Kernlog : Type 0 where
  pub counts : Dict ℕ
  pub last_hit : Dict (Instant × String)
  pub files_ok : Dict Bool

-- `gpu_max_seconds` is in tenths of a second, to which the census rounds it.
pub record Dstate : Type 0 where
  pub readable : Option Bool
  pub gpu_stuck : Option ℕ
  pub gpu_max_seconds : Option ℕ

pub record UnhealthyGpu : Type 0 where
  pub gpu_id : String
  pub namespace : String
  pub pod : String

pub record Exporter : Type 0 where
  pub reachable : Option Bool
  pub error : String
  pub unhealthy : List UnhealthyGpu
  pub healthy : ℕ
  pub gpu_total : ℕ

abbrev pub no_kernlog : Kernlog
no_kernlog = record { counts = []; last_hit = []; files_ok = [] }

abbrev pub no_dstate : Dstate
no_dstate = record { readable = none; gpu_stuck = none; gpu_max_seconds = none }

abbrev pub no_exporter : Exporter
no_exporter = record { reachable = none; error = ""; unhealthy = []; healthy = 0; gpu_total = 0 }
