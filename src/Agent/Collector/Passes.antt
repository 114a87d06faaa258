-- ===== src/Agent/Collector/Passes.antt =====
-- Many passes of `Collector.collect_once` of agent/gpu_health_agent/main.py, some of which fail.
use gpu_node_health.Base.{ℕ, suc, ◌+◌, ◌≡◌, refl, Option, none, some, List, [], ◌∷◌, arith}
use gpu_node_health.Base.Int.{Instant}
use gpu_node_health.Agent.Conditions.Infos.{Evaluator}
use gpu_node_health.Agent.Conditions.{Sample, evaluate}
use gpu_node_health.Agent.Conditions.Window.{replay}
use gpu_node_health.Agent.Collector.{Readings, Collector, idle, actives, collect_once}

-- A pass: its time, and what the sources returned if none of them failed.
abbrev pub Pass : Type 0
Pass = Instant × Option Readings

unfoldable pub collect_all : Evaluator → Collector → List Pass → Collector
collect_all e c [] = c
collect_all e c ((now, readings) ∷ rest) = collect_all e (collect_once e now readings c) rest

abbrev pub failures : List Pass → ℕ
failures [] = 0
failures ((now, none) ∷ rest) = suc (failures rest)
failures ((now, some r) ∷ rest) = failures rest

-- The time of the last pass that did not fail, and `last` if there is none.
abbrev pub last_success : Instant → List Pass → Instant
last_success last [] = last
last_success last ((now, none) ∷ rest) = last_success last rest
last_success last ((now, some r) ∷ rest) = last_success now rest

abbrev pub samples_of : List Pass → List Sample
samples_of [] = []
samples_of ((now, none) ∷ rest) = samples_of rest
samples_of ((now, some r) ∷ rest) = record { at = now; counts = r.kernlog.counts } ∷ samples_of rest

-- What passes leave of a collector.
pub record Outcome (e : Evaluator) (c c' : Collector) (passes : List Pass) : Type 0 where
  pub errors : c'.state.collect_errors ≡ c.state.collect_errors + failures passes
  pub fresh_at : c'.state.collected_at ≡ last_success c.state.collected_at passes
  pub coherent : c'.state.conditions ≡ actives c'.state.condition_detail
  pub window : c'.history ≡ replay e c.history (samples_of passes)

collect_all-Outcome :
    (e : Evaluator) (passes : List Pass) (c : Collector)
    → c.state.conditions ≡ actives c.state.condition_detail
    → Outcome e c (collect_all e c passes) passes
unfolding collect_all collect_once evaluate replay
collect_all-Outcome e [] c h = record {
  errors = omega arith;
  fresh_at = refl;
  coherent = h;
  window = refl;
}
collect_all-Outcome e ((now, none) ∷ rest) c h =
    let o = collect_all-Outcome e rest (collect_once e now none c) h in
    record {
      errors = omega (arith, o.errors);
      fresh_at = o.fresh_at;
      coherent = o.coherent;
      window = o.window;
    }
collect_all-Outcome e ((now, some r) ∷ rest) c h =
    let o = collect_all-Outcome e rest (collect_once e now (some r) c) refl in
    record { errors = o.errors; fresh_at = o.fresh_at; coherent = o.coherent; window = o.window }

-- From the start of the agent and over any passes: the failed passes are all counted, the time of the
-- state is that of the last pass that did not fail, so that failures make it old and do not look
-- fresh, the published flags are those of the details, and the evaluator's history is that of the
-- passes that did not fail.
pub collect_all-idle :
    (e : Evaluator) (passes : List Pass) → Outcome e idle (collect_all e idle passes) passes
collect_all-idle e passes = collect_all-Outcome e passes idle (unfold actives in refl)
