-- ===== src/Agent/Metrics/Render.antt =====
-- agent/gpu_health_agent/metrics.py: `render`, as the list of its calls of `metric` in their order.
use gpu_node_health.Base.{
  ℕ, String, ◌<>◌, Bool, true, false, Option, none, some, List, [], ◌∷◌, ◌++◌, map, length,
}
use gpu_node_health.Base.Int.{ℤ, Instant}
use gpu_node_health.Base.Dict.{Dict, get}
use gpu_node_health.Base.Show.{show_ℕ, show_ℤ, round_tenths, show_tenths, round_millis, show_millis}
use gpu_node_health.Base.Sorted.{sorted}
use gpu_node_health.Agent.Signals.{Kernlog}
use gpu_node_health.Agent.Kernlog.{Severity, fatal, warning, patch, rules}
use gpu_node_health.Agent.Census.{Census}
use gpu_node_health.Agent.Probe.{Gpu}
use gpu_node_health.Agent.PatchCounters.{PatchCounters}
use gpu_node_health.Agent.Metrics.{Buf, metric, text}

-- What the exporter probe returns, as far as it is read here.
pub record Reach : Type 0 where
  pub reachable : Bool
  pub scrape_seconds : Instant
  pub gpu_total : ℤ
  pub unhealthy : List Gpu

-- The dict `state`. What a disabled source or no pass has filled in is absent; `dstate` is the census with
-- its flag `readable`.
pub record State : Type 0 where
  pub collected_at : Option Instant
  pub collect_seconds : Option Instant
  pub collect_errors : ℕ
  pub kernlog : Kernlog
  pub dstate : Option (Bool × Census)
  pub exporter : Option Reach
  pub patch : Option PatchCounters
  pub conditions : Dict Bool

-- The arguments of a call of `metric`.
pub record Call : Type 0 where
  pub name : String
  pub value : String
  pub labels : Dict String
  pub mtype : String
  pub help_text : String

abbrev pub gauge : String → String → Dict String → String → Call
gauge name value labels help = record {
  name = name;
  value = value;
  labels = labels;
  mtype = "gauge";
  help_text = help;
}

abbrev pub counter : String → String → Dict String → String → Call
counter name value labels help = record {
  name = name;
  value = value;
  labels = labels;
  mtype = "counter";
  help_text = help;
}

-- The calls, one after the other.
unfoldable pub write : List Call → Buf → Buf
write [] b = b
write (c ∷ cs) b = write cs (metric c.name c.value c.labels c.mtype c.help_text b)

-- `1 if value else 0`
abbrev pub flag : Bool → String
flag true = "1"
flag false = "0"

-- `_SEVERITY_OF.get(rule, "unknown")`
abbrev pub severity_text : Option Severity → String
severity_text none = "unknown"
severity_text (some fatal) = "fatal"
severity_text (some warning) = "warning"
severity_text (some patch) = "patch"

-- A number of seconds, rounded to three places; without it the number 0.
abbrev pub seconds_or_zero : Option Instant → String
seconds_or_zero none = "0"
seconds_or_zero (some t) = show_millis (round_millis t)

unfoldable pub agent_calls : State → List Call
agent_calls s =
    gauge "agent_up" "1" [] "1 while the agent is serving."
    ∷ gauge "collect_timestamp_seconds" (seconds_or_zero s.collected_at) []
        "Unix time of the last completed collection pass."
    ∷ gauge "collect_duration_seconds" (seconds_or_zero s.collect_seconds) []
        "Wall-clock seconds the last collection pass took."
    ∷ counter "collect_errors_total" (show_ℕ s.collect_errors) []
        "Collection passes that raised. Non-zero means this agent's own data is suspect."
    ∷ []

abbrev pub event_call : String × ℕ → Call
event_call (rule, count) =
    counter "kernlog_events_total" (show_ℕ count)
      (("rule", rule) ∷ ("severity", severity_text (get rule rules)) ∷ [])
      "Kernel-log signature hits since agent start."

abbrev pub last_hit_call : String × (Instant × String) → Call
last_hit_call (rule, (ts, line)) =
    gauge "kernlog_last_event_timestamp_seconds" (show_millis (round_millis ts))
      (("rule", rule) ∷ []) "Unix time of the most recent hit for this signature."

abbrev pub file_call : String × Bool → Call
file_call (path, ok) =
    gauge "kernlog_file_readable" (flag ok) (("path", path) ∷ [])
      "0 means the agent cannot read this log file, so every kernel-log signal from this node is blind."

unfoldable pub kernlog_calls : Kernlog → List Call
unfolding sorted
kernlog_calls k =
    map event_call (sorted k.counts)
    ++ map last_hit_call (sorted k.last_hit)
    ++ map file_call (sorted k.files_ok)

-- One turn of the loop over the two scopes.
abbrev pub scope_calls : String → String → String → String → List Call
scope_calls scope total stuck max =
    gauge "dstate_processes" total (("scope", scope) ∷ [])
      "Tasks (threads) currently in uninterruptible sleep. Counted per thread, not per process: the wedged task is often a thread of a process whose leader has already exited."
    ∷ gauge "dstate_stuck_processes" stuck (("scope", scope) ∷ [])
        "Tasks in D for longer than the stuck threshold."
    ∷ gauge "dstate_max_seconds" max (("scope", scope) ∷ [])
        "Longest continuous time any task has spent in D."
    ∷ []

abbrev pub census_calls : String → String → List Call
census_calls readable denied =
    gauge "proc_readable" readable [] "0 means /proc is unreadable and the D-state census is blind."
    ∷ gauge "dstate_wchan_denied" denied []
        "Tasks in D whose /proc/<tid>/wchan the kernel refused to disclose (the read goes through ptrace_may_access and fails whole, unlike stat). Their GPU/non-GPU split falls back to matching the task name, which is known not to reach the tasks that matter - the ones wedged on 0004 were called grpcpp_sync_ser and llama-server. Non-zero means the census is blind in exactly the direction that hides a hang."
    ∷ []

unfoldable pub dstate_calls : Option (Bool × Census) → List Call
dstate_calls none =
    census_calls "0" "0" ++ scope_calls "all" "0" "0" "0" ++ scope_calls "gpu_worker" "0" "0" "0"
dstate_calls (some (readable, c)) =
    census_calls (flag readable) (show_ℕ c.wchan_denied)
    ++ scope_calls "all" (show_ℕ c.total) (show_ℕ c.stuck)
        (show_tenths (round_tenths c.max_seconds))
    ++ scope_calls "gpu_worker" (show_ℕ c.gpu_total) (show_ℕ c.gpu_stuck)
        (show_tenths (round_tenths c.gpu_max_seconds))

abbrev pub gpu_call : Gpu → Call
gpu_call u =
    gauge "exporter_gpu_unhealthy_info" "1"
      (("gpu_id", u.gpu_id)
        ∷ ("namespace", u.namespace)
        ∷ ("pod", u.pod)
        ∷ ("container", u.container)
        ∷ [])
      "One series per unhealthy GPU, carrying the tenant workload currently occupying it."

abbrev pub probe_calls : String → String → String → List Gpu → List Call
probe_calls reachable seconds gpu_total unhealthy =
    gauge "exporter_reachable" reachable []
      "0 means the node-local AMD device-metrics-exporter did not answer."
    ∷ gauge "exporter_scrape_seconds" seconds [] ""
    ∷ gauge "exporter_gpu_total" gpu_total [] ""
    ∷ gauge "exporter_gpu_unhealthy" (show_ℕ (length unhealthy)) []
        "GPUs the AMD exporter reports as unhealthy."
    ∷ map gpu_call unhealthy

unfoldable pub exporter_calls : Option Reach → List Call
exporter_calls none = probe_calls "0" "0" "0" []
exporter_calls (some e) =
    probe_calls (flag e.reachable) (show_millis (round_millis e.scrape_seconds))
      (show_ℤ e.gpu_total) e.unhealthy

abbrev pub patch_call : String × ℤ → Call
patch_call (name, value) = counter ("patch_" <> name) (show_ℤ value) [] ""

abbrev pub present_call : Bool → Call
present_call present =
    gauge "patch_counters_present" (flag present) []
      "1 when this node exposes amdgpu D1-D7 patch counters."

unfoldable pub patch_calls : Option PatchCounters → List Call
unfolding sorted
patch_calls none = present_call false ∷ []
patch_calls (some p) = present_call p.present ∷ map patch_call (sorted p.counters)

abbrev pub condition_call : String × Bool → Call
condition_call (name, active) =
    gauge "condition" (flag active) (("condition", name) ∷ [])
      "1 while this node health condition is asserted."

unfoldable pub condition_calls : Dict Bool → List Call
unfolding sorted
condition_calls conditions = map condition_call (sorted conditions)

unfoldable pub calls : State → List Call
calls s =
    agent_calls s
    ++ kernlog_calls s.kernlog
    ++ dstate_calls s.dstate
    ++ exporter_calls s.exporter
    ++ patch_calls s.patch
    ++ condition_calls s.conditions

unfoldable pub collect : String → State → Buf
collect node s = write (calls s) (record { node = node; lines = []; declared = [] })

unfoldable pub render : String → State → String
render node s = text (collect node s)
