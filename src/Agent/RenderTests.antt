-- ===== src/Agent/RenderTests.antt =====
-- The text that the agent serves, at a concrete state.
use gpu_node_health.Base.{String, ◌≡◌, refl, true, false, ◌=s=◌, if◌then◌else◌, some, [], ◌∷◌}
use gpu_node_health.Base.Int.{pos}
use gpu_node_health.Base.Dict.{get, put}
use gpu_node_health.Base.Show.{show_ℕ}
use gpu_node_health.Base.Sorted.{sorted, is_before}
use gpu_node_health.Base.Strip.{replace_char}
use gpu_node_health.Agent.Signals.{no_kernlog}
use gpu_node_health.Agent.Census.{no_tasks}
use gpu_node_health.Agent.PatchCounters.{Directory, CounterFile, holds, absent}
use gpu_node_health.Agent.PatchCounters
use gpu_node_health.Agent.Metrics.{metric, text, esc}
use gpu_node_health.Agent.Metrics.Render.{State, collect, write, kernlog_calls}
use gpu_node_health.Agent.Metrics.Declared.{accepts, collect-accepts}
use gpu_node_health.Agent.Metrics.Patched.{collect-AreSeries}

abbrev counters : String → CounterFile
counters name = if name =s= "d3_failover_total" then holds "3" else absent

abbrev debugfs : Directory
debugfs = record { is_dir = true; read = counters }

abbrev state : State
state = record {
  collected_at = some (pos 1700000000250000);
  collect_seconds = some (pos 12500);
  collect_errors = 0;
  kernlog = record no_kernlog { counts = ("vram_lost", 2) ∷ ("gpu_reset_begin", 1) ∷ [] };
  dstate = some (true, no_tasks []);
  exporter = some (record {
    reachable = true;
    scrape_seconds = pos 90000;
    gpu_total = pos 8;
    unhealthy = (record { gpu_id = "3"; namespace = "a"; pod = "p"; container = "c" }) ∷ [];
  });
  patch = some (PatchCounters.collect debugfs);
  conditions = ("GPUUnrecoverable", true) ∷ ("GPUDegraded", false) ∷ [];
}

collect-accepts_example : accepts (collect "n1" state).lines [] ≡ true
collect-accepts_example = collect-accepts "n1" state (collect-AreSeries debugfs)

sorted_test :
    text (write (kernlog_calls state.kernlog) (record { node = "n1"; lines = []; declared = [] }))
    ≡ "# HELP gpuhealth_kernlog_events_total Kernel-log signature hits since agent start.\n# TYPE gpuhealth_kernlog_events_total counter\ngpuhealth_kernlog_events_total{node=\"n1\",rule=\"gpu_reset_begin\",severity=\"fatal\"} 1\ngpuhealth_kernlog_events_total{node=\"n1\",rule=\"vram_lost\",severity=\"fatal\"} 2\n"
unfolding text write kernlog_calls sorted metric esc replace_char put get show_ℕ is_before
sorted_test = refl
