-- ===== src/Guard/Metrics.antt =====
-- guard/gpu_node_guard/metrics.py: the guard's text for Prometheus. A value is given as the text that it
-- prints as, and a sample of a series is one call of `metric`.

pub mod Unbroken
use gpu_node_health.Base.{
  String, ◌<>◌, ◌≡◌, Bool, true, false, List, [], ◌∷◌, ◌++◌, map, ◌=s=◌, contains, concat, join,
  if◌then◌else◌, Option, none, some,
}
use gpu_node_health.Base.Int.{ℤ, pos, negsuc, Instant}
use gpu_node_health.Base.Show.{show_ℕ, show_ℤ, show_tenths, round_tenths, whole_seconds}
use gpu_node_health.Base.Strip.{replace_char}
use gpu_node_health.Guard.Policy.Types.{
  Level, Action, cordon, noop, Reason, healthy, already_cordoned, report_only, too_young,
  stale_data, observe_mode, out_of_scope, capacity_floor, rate_limit, cordoned, Decision, NodeState,
}
use gpu_node_health.Guard.Policy.Messages.{level_text}
use gpu_node_health.Guard.Supervisor.{
  PodAction, delete, PodReason, reachable, not_running, no_pod_ip, within_grace, cooldown, disabled,
  would_delete, deleted, PodDecision,
}
use gpu_node_health.Guard.World.{GuardConfig, GuardState}

-- The constants `CORDON` and `NOOP`.
unfoldable pub action_text : Action → String
action_text cordon = "cordon"
action_text noop = "noop"

-- The constants `R_…` of the policy.
unfoldable pub reason_text : Reason → String
reason_text healthy = "healthy"
reason_text already_cordoned = "already-cordoned"
reason_text report_only = "report-only-level"
reason_text too_young = "condition-too-young"
reason_text stale_data = "health-data-stale"
reason_text observe_mode = "observe-mode"
reason_text out_of_scope = "not-in-enforce-scope"
reason_text capacity_floor = "capacity-floor"
reason_text rate_limit = "rate-limit"
reason_text cordoned = "cordon"

unfoldable pub level_label : Option Level → String
unfolding level_text
level_label none = ""
level_label (some l) = level_text l

-- The constants `DELETE` and `NOOP`.
unfoldable pub pod_action_text : PodAction → String
pod_action_text delete = "delete"
pod_action_text PodAction.noop = "noop"

-- The constants `R_…` of the supervisor.
unfoldable pub pod_reason_text : PodReason → String
pod_reason_text reachable = "reachable"
pod_reason_text not_running = "not-running"
pod_reason_text no_pod_ip = "no-pod-ip"
pod_reason_text within_grace = "within-grace"
pod_reason_text cooldown = "cooldown"
pod_reason_text disabled = "supervision-disabled"
pod_reason_text would_delete = "would-delete"
pod_reason_text deleted = "delete"

unfoldable pub esc : String → String
unfolding replace_char
esc value = replace_char "\n" "\\n" (replace_char "\"" "\\\"" (replace_char "\\" "\\\\" value))

pub record Registry : Type 0 where
  pub lines : List String
  pub declared : List String

abbrev pub empty : Registry
empty = record { lines = []; declared = [] }

unfoldable pub label : String × String → String
label (k, v) = concat (k ∷ "=\"" ∷ esc v ∷ "\"" ∷ [])

-- The labels in braces; nothing where there is no label.
unfoldable pub suffix : List (String × String) → String
unfolding label
suffix [] = ""
suffix (l ∷ ls) = "{" <> (join "," (map label (l ∷ ls)) <> "}")

-- The line of a sample.
unfoldable pub sample : String → String → List (String × String) → String
sample full value labels = full <> (suffix labels <> (" " <> value))

-- The lines that declare a series.
unfoldable pub declaration : String → String → String → List String
declaration full mtype help_text =
    let typed = concat ("# TYPE " ∷ full ∷ " " ∷ mtype ∷ []) ∷ [] in
    if help_text =s= "" then typed else concat ("# HELP " ∷ full ∷ " " ∷ help_text ∷ []) ∷ typed

unfoldable pub metric :
    String → String → List (String × String) → String → String → Registry → Registry
unfolding sample declaration
metric name value labels mtype help_text r =
    let full = "gpuguard_" <> name in
    let is_declared = contains full r.declared in
    record {
      lines =
          (r.lines ++ (if is_declared then [] else declaration full mtype help_text))
          ++ sample full value labels ∷ [];
      declared = if is_declared then r.declared else full ∷ r.declared;
    }

-- `Registry.render`
unfoldable pub text : Registry → String
text r = join "\n" r.lines <> "\n"

abbrev pub flag : Bool → String
flag true = "1"
flag false = "0"

-- The samples that `render` writes once.
unfoldable pub totals : GuardConfig → GuardState → Registry
totals cfg state =
    let r0 = metric "up" "1" [] "gauge" "gpu-node-guard process is serving." empty in
    let r1 =
      metric "is_leader" (flag state.is_leader) [] "gauge"
        "1 on the replica currently holding the lease. Only the leader evaluates or acts." r0 in
    let r2 =
      metric "enforce_mode" (flag (cfg.policy.mode =s= "enforce")) [] "gauge"
        "1 when GUARD_MODE=enforce. 0 means every decision below is hypothetical." r1 in
    let r3 =
      metric "last_loop_timestamp_seconds" (show_ℤ (whole_seconds state.last_loop)) [] "gauge"
        "Unix time of the last completed evaluation. Alert on this going stale: a guard that stopped evaluating looks exactly like a fleet with no problems."
        r2 in
    let r4 =
      metric "loop_errors_total" (show_ℕ state.loop_errors) [] "counter"
        "Evaluation loops that raised." r3 in
    let r5 =
      metric "event_errors_total" (show_ℕ state.event_errors) [] "counter"
        "Kubernetes Events the guard failed to record. Non-zero means actions and refusals are happening unwitnessed."
        r4 in
    let r6 =
      metric "nodes_watched" (show_ℕ state.nodes_watched) [] "gauge"
        "Nodes matching the guard's label selector." r5 in
    let r7 =
      metric "healthy_capacity" (show_ℕ state.healthy_capacity) [] "gauge"
        "Nodes that are Ready, schedulable and not triggering a cordon. This is what the capacity floor is measured against."
        r6 in
    let r8 =
      metric "min_healthy_nodes" (show_ℤ cfg.policy.min_healthy_nodes) [] "gauge"
        "Configured capacity floor." r7 in
    metric "cordons_total" (show_ℕ state.cordons_total) [] "counter"
      "Cordons actually performed by this guard since start." r8

unfoldable pub node_samples : NodeState → Registry → Registry
node_samples st r =
    let labels = ("node", st.node) ∷ [] in
    metric "node_ready" (show_ℕ st.ready) labels "gauge"
      "kubelet's own Ready condition. Stays 1 through a GPU hang - recorded here so a dashboard can show that next to the GPU conditions rather than beside them."
      (metric "node_unschedulable" (show_ℕ st.unschedulable) labels "gauge"
        "1 while the node is cordoned, whoever cordoned it. This guard never uncordons, so a 1 here persists until a human clears it - which is exactly why it is a gauge and not an increase() over the cordon counter."
        r)

unfoldable pub decision_labels : Decision → List (String × String)
unfolding action_text reason_text level_label
decision_labels dec =
    ("node", dec.node)
    ∷ ("action", action_text dec.action)
    ∷ ("reason", reason_text dec.reason)
    ∷ ("level", level_label dec.level)
    ∷ ("condition", dec.condition)
    ∷ []

unfoldable pub decision_sample : Decision → Registry → Registry
decision_sample dec r =
    metric "decision" "1" (decision_labels dec) "gauge"
      "Current decision per node, one series each. The reason label is the interesting one - reason=\"capacity-floor\" or \"rate-limit\" means the guard wanted to act and was not allowed to."
      r

-- `unreachable_seconds` is the integer 0 where no clock runs, and else a float in tenths.
unfoldable pub elapsed_text : PodReason → Instant → String
unfolding show_tenths round_tenths
elapsed_text reachable t = "0"
elapsed_text not_running t = "0"
elapsed_text no_pod_ip t = "0"
elapsed_text _ t = show_tenths (round_tenths t)

unfoldable pub exporter_samples : PodDecision → Registry → Registry
unfolding pod_action_text pod_reason_text elapsed_text
exporter_samples dec r =
    let who = ("exporter_pod", dec.pod) ∷ ("node", dec.node) ∷ [] in
    let what =
      ("action", pod_action_text dec.action) ∷ ("reason", pod_reason_text dec.reason) ∷ [] in
    metric "exporter_unreachable_seconds" (elapsed_text dec.reason dec.unreachable_for) who "gauge"
      "How long this exporter's /metrics has been unreachable. Reset only by a successful scrape - never by a restart or a delete."
      (metric "exporter_decision" "1" (who ++ what) "gauge"
        "Current decision per metrics-exporter pod." r)

-- `for x in xs: …` over a registry.
abbrev pub each : {A : Type 0} → (A → Registry → Registry) → List A → Registry → Registry
each f [] r = r
each f (x ∷ xs) r = each f xs (f x r)

-- The registry that `render` fills.
unfoldable pub collect : GuardConfig → GuardState → Registry
collect cfg state =
    let nodes = each node_samples state.node_states (totals cfg state) in
    let decided = each decision_sample state.decisions nodes in
    each exporter_samples state.exporter_decisions decided

unfoldable pub render : GuardConfig → GuardState → String
unfolding collect text
render cfg state = text (collect cfg state)
