-- ===== src/Agent/Conditions/Infos.antt =====
-- The five conditions of agent/gpu_health_agent/conditions.py, `evaluate`, from the numbers of hits and the
-- readings: whether each is active, its reason and its text.
use gpu_node_health.Base.{
  ℕ, ◌/◌, ◌%◌, String, ◌<>◌, Bool, true, false, not, ◌||◌, ◌&&◌, Option, none, some, List, [], ◌∷◌,
  ◌++◌, map, ltb, ◌=s=◌, length, concat, join, sorted, if◌then◌else◌,
}
use gpu_node_health.Base.Int.{ℤ, pos, ltb_ℤ}
use gpu_node_health.Base.Dict.{Dict, default_to}
use gpu_node_health.Base.Show.{show_ℕ, show_ℤ}
use gpu_node_health.Agent.Signals.{Dstate, UnhealthyGpu, Exporter}

-- One value of the dict that `evaluate` returns.
pub record Info : Type 0 where
  pub active : Bool
  pub reason : String
  pub message : String

-- `_window` and `_engine_recurrence`
pub record Evaluator : Type 0 where
  pub window : ℤ
  pub engine_recurrence : ℤ

unfoldable pub unrecoverable : Evaluator → ℕ → String → Info
unrecoverable e n line = record {
  active = ltb 0 n;
  reason = if ltb 0 n then "KernelFatalGPUEvent" else "NoFatalGPUEvent";
  message =
      if ltb 0 n
      then concat (
          show_ℕ n
          ∷ " unrecoverable GPU event(s) in the last "
          ∷ show_ℤ e.window
          ∷ "s: "
          ∷ line
          ∷ [])
      else concat ("No MES/reset/VRAM-loss events in the last " ∷ show_ℤ e.window ∷ "s." ∷ []);
}

-- A time in tenths of a second prints as a float; a missing one is the integer 0.
show_tenths : Option ℕ → String
show_tenths none = "0"
show_tenths (some n) = show_ℕ (n / 10) <> ("." <> show_ℕ (n % 10))

unfoldable pub workqueue_stalled : Evaluator → ℕ → Dstate → String → Info
unfolding show_tenths
workqueue_stalled e wq_log dstate line =
    let gpu_stuck = default_to 0 dstate.gpu_stuck in
    let active = ltb 0 wq_log || ltb 0 gpu_stuck in
    record {
      active = active;
      reason =
          if ltb 0 wq_log && ltb 0 gpu_stuck
          then "WorkqueueBlockedAndStuckWorkers"
          else if ltb 0 wq_log
          then "KernelReportedBlockedWorker"
          else if ltb 0 gpu_stuck
          then "StuckGPUWorkerThreads"
          else "WorkqueuesResponsive";
      message =
          if active
          then concat (
              show_ℕ gpu_stuck
              ∷ " GPU workqueue thread(s) stuck in D (longest "
              ∷ show_tenths dstate.gpu_max_seconds
              ∷ "s); "
              ∷ show_ℕ wq_log
              ∷ " kernel hung-task report(s) in the last "
              ∷ show_ℤ e.window
              ∷ "s. "
              ∷ line
              ∷ [])
          else "GPU workqueue threads are not blocked.";
    }

unfoldable pub engine_timeout : Evaluator → ℕ → String → Info
engine_timeout e eng line =
    let recurring = not (ltb_ℤ (pos eng) e.engine_recurrence) in
    record {
      active = recurring;
      reason = if recurring then "RecurringEngineTimeout" else "NoRecurringTimeout";
      message =
          if recurring
          then concat (
              show_ℕ eng
              ∷ " ring/job timeout(s) in the last "
              ∷ show_ℤ e.window
              ∷ "s (threshold "
              ∷ show_ℤ e.engine_recurrence
              ∷ "): "
              ∷ line
              ∷ [])
          else concat (
              show_ℕ eng
              ∷ " ring/job timeout(s) in the last "
              ∷ show_ℤ e.window
              ∷ "s; below the recurrence threshold."
              ∷ []);
    }

abbrev pub is_false : Option Bool → Bool
is_false none = false
is_false (some b) = not b

who : UnhealthyGpu → String
who u =
    let gpu = "gpu" <> u.gpu_id in
    if u.pod =s= "" then gpu else concat (gpu ∷ " (" ∷ u.namespace ∷ "/" ∷ u.pod ∷ ")" ∷ [])

-- `elif unhealthy` and the branches below it.
answered : Exporter → List UnhealthyGpu → Info
answered exporter [] = record {
  active = false;
  reason = "ExporterHealthy";
  message = concat (
      "AMD exporter reachable; "
      ∷ show_ℕ exporter.healthy
      ∷ " of "
      ∷ show_ℕ exporter.gpu_total
      ∷ " GPU(s) report healthy. Note: gpu_health is ECC/topology-driven and is not expected to detect a fence or MES stall on its own."
      ∷ []);
}
answered exporter (u ∷ us) = record {
  active = true;
  reason = "ExporterReportsUnhealthyGPU";
  message = concat (
      "AMD exporter reports "
      ∷ show_ℕ (length (u ∷ us))
      ∷ " unhealthy GPU(s): "
      ∷ join ", " (map who (u ∷ us))
      ∷ []);
}

unfoldable pub probe_failed : Exporter → Info
unfolding answered who
probe_failed exporter =
    if is_false exporter.reachable
    then record {
      active = true;
      reason = "ExporterUnreachable";
      message = "Node-local AMD metrics exporter did not answer: " <> exporter.error;
    }
    else answered exporter exporter.unhealthy

-- The texts for the files that cannot be read.
unfoldable pub unreadable : Dict Bool → List String
unreadable [] = []
unreadable ((path, ok) ∷ rest) =
    let more = unreadable rest in if ok then more else (path <> " unreadable") ∷ more

unfoldable pub blind_sources : Dstate → Dict Bool → List String
unfolding unreadable
blind_sources dstate files_ok =
    (if is_false dstate.readable then "/proc unreadable" ∷ [] else [])
    ++ unreadable (sorted files_ok)

unfoldable pub stale_from : List String → Info
stale_from [] = record {
  active = false;
  reason = "SignalsFresh";
  message = "All configured signal sources are readable.";
}
stale_from (b ∷ bs) = record {
  active = true;
  reason = "SignalSourcesUnreadable";
  message =
      "This node's health signals are BLIND, so a green status here means nothing: "
      <> join "; " (b ∷ bs);
}
