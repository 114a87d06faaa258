-- ===== src/Agent/Conditions.antt =====
-- agent/gpu_health_agent/conditions.py: `ConditionEvaluator`, its deque of samples as a list with the
-- oldest first. The clock and the readings of the sources are arguments.
pub mod Infos
pub mod Window
pub mod Active
pub mod Stale
use gpu_node_health.Base.{
  ℕ, ◌+◌, ◌-◌, ◌/◌, ◌%◌, String, ◌<>◌, Bool, true, false, not, ◌||◌, ◌&&◌, Option, none, some, List,
  [], ◌∷◌, ◌++◌, map, ltb, ◌=s=◌, length, concat, join, sorted, if◌then◌else◌,
}
use gpu_node_health.Base.Int.{ℤ, pos, ◌-ℤ◌, ltb_ℤ, Instant, seconds}
use gpu_node_health.Base.Dict.{Dict, get, default_to}
use gpu_node_health.Base.Show.{show_ℕ, show_ℤ}
use Infos.{
  Info, Evaluator, unrecoverable, workqueue_stalled, engine_timeout, probe_failed, blind_sources,
  stale_from,
}
use gpu_node_health.Agent.Signals.{Kernlog, Dstate, UnhealthyGpu, Exporter}

abbrev pub fatal_hang_rules : List String
fatal_hang_rules =
    "mes_unrecoverable" ∷ "gpu_reset_begin" ∷ "vram_lost" ∷ "sched_killed_entity" ∷ []

abbrev pub workqueue_rules : List String
workqueue_rules = "gpu_workqueue_blocked" ∷ []

abbrev pub engine_rules : List String
engine_rules = "ring_timeout" ∷ "job_timedout" ∷ []

abbrev pub all_conditions : List String
all_conditions =
    "GPUUnrecoverable" ∷ "GPUWorkqueueStalled" ∷ "GPUEngineTimeout" ∷ "GPUProbeFailed"
    ∷ "GPUHealthDataStale" ∷ []

pub record Sample : Type 0 where
  pub at : Instant
  pub counts : Dict ℕ

abbrev pub is_old : ℤ → Instant → Sample → Bool
is_old window now s = ltb_ℤ (seconds window) (now -ℤ s.at)

-- The loop that pops old samples: the last sample stays.
unfoldable pub drop_old : ℤ → Instant → List Sample → List Sample
drop_old window now [] = []
drop_old window now (s ∷ []) = s ∷ []
drop_old window now (s ∷ t ∷ rest) =
    let dropped = drop_old window now (t ∷ rest) in
    if is_old window now s then dropped else s ∷ t ∷ rest

-- `self._history[0][1]`; the history of an evaluation is never empty.
abbrev pub baseline : List Sample → Dict ℕ
baseline [] = []
baseline (s ∷ rest) = s.counts

-- Subtraction stops at 0, as `max(0, ...)` does.
unfoldable pub hits : Dict ℕ → Dict ℕ → List String → ℕ
hits base counts [] = 0
hits base counts (r ∷ rules) =
    (default_to 0 (get r counts) - default_to 0 (get r base)) + hits base counts rules

-- The loop of `latest_line`, with the best time and line so far.
abbrev pub later : Instant × String → Option (Instant × String) → Instant × String
later best none = best
later best (some entry) = if ltb_ℤ best.0 entry.0 then entry else best

unfoldable pub latest_from : Instant × String → Dict (Instant × String) → List String → String
latest_from best last_hit [] = best.1
latest_from best last_hit (r ∷ rules) = latest_from (later best (get r last_hit)) last_hit rules

unfoldable pub latest_line : Dict (Instant × String) → List String → String
unfolding latest_from
latest_line = latest_from (pos 0, "")

-- The five conditions from the history with the new sample in it.
unfoldable pub conditions : Evaluator → List Sample → Kernlog → Dstate → Exporter → Dict Info
unfolding unrecoverable workqueue_stalled engine_timeout probe_failed stale_from
conditions e history kernlog dstate exporter =
    let count = hits (baseline history) kernlog.counts in
    let line = latest_line kernlog.last_hit in
    ("GPUUnrecoverable", unrecoverable e (count fatal_hang_rules) (line fatal_hang_rules))
    ∷ (
      "GPUWorkqueueStalled",
      workqueue_stalled e (count workqueue_rules) dstate (line workqueue_rules),
    )
    ∷ ("GPUEngineTimeout", engine_timeout e (count engine_rules) (line engine_rules))
    ∷ ("GPUProbeFailed", probe_failed exporter)
    ∷ ("GPUHealthDataStale", stale_from (blind_sources dstate kernlog.files_ok))
    ∷ []

-- The samples after an evaluation.
unfoldable pub record_sample : Evaluator → Instant → Dict ℕ → List Sample → List Sample
unfolding drop_old
record_sample e now counts history =
    drop_old e.window now (history ++ record { at = now; counts = counts } ∷ [])

unfoldable pub evaluate :
    Evaluator → Instant → Kernlog → Dstate → Exporter → List Sample → Dict Info × List Sample
unfolding conditions record_sample
evaluate e now kernlog dstate exporter history =
    let history' = record_sample e now kernlog.counts history in
    (conditions e history' kernlog dstate exporter, history')
