-- ===== src/Agent/Collector.antt =====
-- agent/gpu_health_agent/main.py: `Collector.collect_once`. What the sources return is an argument,
-- and so is the clock; the time that a pass takes is left out.
pub mod Passes
use gpu_node_health.Base.{ℕ, suc, String, Bool, Option, none, some, List, [], ◌∷◌}
use gpu_node_health.Base.Int.{pos, Instant}
use gpu_node_health.Base.Dict.{Dict}
use gpu_node_health.Agent.Signals.{Kernlog, Dstate, Exporter}
use gpu_node_health.Agent.Conditions.Infos.{Info, Evaluator}
use gpu_node_health.Agent.Conditions.{Sample, evaluate}

pub record Readings : Type 0 where
  pub kernlog : Kernlog
  pub dstate : Dstate
  pub exporter : Exporter

-- `_state`; it has no readings and no details before the first pass that succeeds.
pub record CollectorState : Type 0 where
  pub collected_at : Instant
  pub collect_errors : ℕ
  pub readings : Option Readings
  pub condition_detail : Dict Info
  pub conditions : Dict Bool

pub record Collector : Type 0 where
  pub state : CollectorState
  pub history : List Sample

abbrev pub idle : Collector
idle = record {
  state = record {
    collected_at = pos 0;
    collect_errors = 0;
    readings = none;
    condition_detail = [];
    conditions = [];
  };
  history = [];
}

-- `{k: v["active"] for k, v in evaluated.items()}`
unfoldable pub actives : Dict Info → Dict Bool
actives [] = []
actives ((name, info) ∷ rest) = (name, info.active) ∷ actives rest

-- Without readings a source has raised an exception, which only counts as an error.
unfoldable pub collect_once : Evaluator → Instant → Option Readings → Collector → Collector
unfolding actives evaluate
collect_once e now none c = record c {
  state = record c.state { collect_errors = suc c.state.collect_errors };
}
collect_once e now (some r) c =
    let (detail, history) = evaluate e now r.kernlog r.dstate r.exporter c.history in
    record {
      state = record {
        collected_at = now;
        collect_errors = c.state.collect_errors;
        readings = some r;
        condition_detail = detail;
        conditions = actives detail;
      };
      history = history;
    }
