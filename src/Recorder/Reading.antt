-- ===== src/Recorder/Reading.antt =====
-- What the recorder of tools/stress-recorder.py reads of the whole text that the guard serves.
use gpu_node_health.Base.{
  String, ◌<>◌, Bool, true, false, ◌≡◌, refl, List, [], ◌∷◌, ◌++◌, some, if◌then◌else◌, ◌=s=◌, inl,
  inr, ◌∙◌, ℕ,
}
use gpu_node_health.Base.Int.{pos, Instant}
use gpu_node_health.Base.Show.{show_ℕ, show_ℤ, whole_seconds, round_tenths}
use gpu_node_health.Base.Parse.{show_ℤ_solid, show_tenths_solid}
use gpu_node_health.Base.Strip.{strip_solid}
use gpu_node_health.Guard.World.{GuardConfig, GuardState}
use gpu_node_health.Base.Chars.{is_space}
use gpu_node_health.Base.Tests.{Option-cases}
use gpu_node_health.Base.Lists.{All}
use gpu_node_health.Base.Matching.{without}
use gpu_node_health.Guard.Policy.Types.{Decision, NodeState}
use gpu_node_health.Guard.Supervisor.{PodReason, reachable, not_running, no_pod_ip, PodDecision}
use gpu_node_health.Guard.Metrics.{
  Registry, metric, totals, flag, suffix, node_samples, exporter_samples, elapsed_text, each,
  decision_sample, decision_labels, pod_action_text, pod_reason_text, action_text, reason_text,
  level_label,
}
use gpu_node_health.Recorder.Plain.{is_plain, action_plain, reason_plain, level_plain}
use gpu_node_health.Recorder.Keys.{read_key-other, read_key-decision}
use gpu_node_health.Recorder.DecisionKey.{decision_key_lem}
use gpu_node_health.Recorder.{View, unknown, read_lines, read_key}
use gpu_node_health.Recorder.Samples.{read_lines-metric, solid}

pub flag-solid : (b : Bool) → solid (flag b) ≡ true
unfolding is_space
flag-solid true = refl
flag-solid false = refl

pub show_ℕ-solid : (n : ℕ) → solid (show_ℕ n) ≡ true
show_ℕ-solid n = unfold show_ℤ in show_ℤ_solid (pos n)

pub read_totals :
    (n : String) (cfg : GuardConfig) (state : GuardState)
    → read_lines n (totals cfg state).lines unknown
      ≡ some (record {
        reason = "?";
        level = "?";
        cordons = show_ℕ state.cordons_total;
        capacity = show_ℕ state.healthy_capacity;
        loop_errors = show_ℕ state.loop_errors;
        event_errors = show_ℕ state.event_errors;
      })
unfolding totals read_key suffix read_lines
read_totals n cfg state =
    let one = λ (name value mtype help : String) (r : Registry) (h : solid value ≡ true).
      read_lines-metric n name value mtype help [] r unknown h in
    rw
      (
        one "cordons_total" (show_ℕ state.cordons_total) _ _ _ (show_ℕ-solid state.cordons_total),
        one "min_healthy_nodes" (show_ℤ cfg.policy.min_healthy_nodes) _ _ _
            (show_ℤ_solid cfg.policy.min_healthy_nodes),
        one "healthy_capacity" (show_ℕ state.healthy_capacity) _ _ _
            (show_ℕ-solid state.healthy_capacity),
        one "nodes_watched" (show_ℕ state.nodes_watched) _ _ _ (show_ℕ-solid state.nodes_watched),
        one "event_errors_total" (show_ℕ state.event_errors) _ _ _
            (show_ℕ-solid state.event_errors),
        one "loop_errors_total" (show_ℕ state.loop_errors) _ _ _ (show_ℕ-solid state.loop_errors),
        one "last_loop_timestamp_seconds" (show_ℤ (whole_seconds state.last_loop)) _ _ _
            (show_ℤ_solid (whole_seconds state.last_loop)),
        one "enforce_mode" (flag (cfg.policy.mode =s= "enforce")) _ _ _
            (flag-solid (cfg.policy.mode =s= "enforce")),
        one "is_leader" (flag state.is_leader) _ _ _ (flag-solid state.is_leader),
        one "up" "1" _ _ _ refl,
        strip_solid (show_ℕ state.loop_errors) (show_ℕ-solid state.loop_errors),
        strip_solid (show_ℕ state.event_errors) (show_ℕ-solid state.event_errors),
        strip_solid (show_ℕ state.healthy_capacity) (show_ℕ-solid state.healthy_capacity),
        strip_solid (show_ℕ state.cordons_total) (show_ℕ-solid state.cordons_total),
      )
      refl

pub elapsed_solid : (reason : PodReason) (t : Instant) → solid (elapsed_text reason t) ≡ true
unfolding elapsed_text is_space
elapsed_solid reachable t = refl
elapsed_solid not_running t = refl
elapsed_solid no_pod_ip t = refl
elapsed_solid _ t = show_tenths_solid (round_tenths t)

-- Lines that change nothing that is read.
abbrev pub Unread : String → Registry → Registry → Type 0
Unread n r s = (v : View) → read_lines n s.lines v ≡ read_lines n r.lines v

metric-Unread :
    (n name value mtype help : String) (labels : List (String × String)) (r : Registry)
    → solid value ≡ true
    → ((v : View) → read_key n (("gpuguard_" <> name) <> suffix labels) value v ≡ some v)
    → Unread n r (metric name value labels mtype help r)
metric-Unread n name value mtype help labels r h pass v =
    read_lines-metric n name value mtype help labels r v h
    ∙ elim (Option-cases (read_lines n r.lines v)) [
      | inl e ↦ rw e refl
      | inr (w, e) ↦ rw e (pass w)
    ]

pub node_samples-Unread :
    (n : String) (st : NodeState) (r : Registry) → Unread n r (node_samples st r)
unfolding node_samples
node_samples-Unread n st r v =
    let labels = ("node", st.node) ∷ [] in
    metric-Unread n "node_ready" (show_ℕ st.ready) _ _ labels _ (show_ℕ-solid st.ready)
      (λ w.
        read_key-other n "gpuguard_node_ready" (suffix labels) (show_ℕ st.ready) w refl refl refl
          refl refl)
      v
    ∙ metric-Unread n "node_unschedulable" (show_ℕ st.unschedulable) _ _ labels _
        (show_ℕ-solid st.unschedulable)
        (λ w.
          read_key-other n "gpuguard_node_unschedulable" (suffix labels) (show_ℕ st.unschedulable) w
            refl refl refl refl refl)
        v

pub exporter_samples-Unread :
    (n : String) (dec : PodDecision) (r : Registry) → Unread n r (exporter_samples dec r)
unfolding exporter_samples
exporter_samples-Unread n dec r v =
    let who = ("exporter_pod", dec.pod) ∷ ("node", dec.node) ∷ [] in
    let what =
      ("action", pod_action_text dec.action) ∷ ("reason", pod_reason_text dec.reason) ∷ [] in
    let time = elapsed_text dec.reason dec.unreachable_for in
    metric-Unread n "exporter_unreachable_seconds" time _ _ who _
      (elapsed_solid dec.reason dec.unreachable_for)
      (λ w.
        read_key-other n "gpuguard_exporter_unreachable_seconds" (suffix who) time w refl refl refl
          refl refl)
      v
    ∙ metric-Unread n "exporter_decision" "1" _ _ (who ++ what) _ (flag-solid true)
        (λ w.
          read_key-other n "gpuguard_exporter_decision" (suffix (who ++ what)) "1" w refl refl refl
            refl refl)
        v

pub each-Unread :
    {A : Type 0} (n : String) (f : A → Registry → Registry)
    → ((x : A) (r : Registry) → Unread n r (f x r))
    → (xs : List A) (r : Registry) → Unread n r (each f xs r)
each-Unread n f h [] r v = refl
each-Unread n f h (x ∷ xs) r v = each-Unread n f h xs (f x r) v ∙ h x r v

-- What the decisions say of a node: the last one on it counts.
abbrev pub seen : String → List Decision → View → View
seen n [] v = v
seen n (dec ∷ decs) v = seen n decs (
    if dec.node =s= n
    then record v { reason = reason_text dec.reason; level = level_label dec.level }
    else v)

-- A decision whose names are read back as they are written.
abbrev pub IsLegible : Decision → Type 0
IsLegible dec = (is_plain dec.node ≡ true) × (is_plain dec.condition ≡ true)

read_decision :
    (n : String) (dec : Decision) (r : Registry) (v w : View)
    → without "\"" n ≡ true
    → IsLegible dec
    → read_lines n r.lines v ≡ some w
    → read_lines n (decision_sample dec r).lines v ≡ some (seen n (dec ∷ []) w)
unfolding decision_sample
read_decision n dec r v w h (pn, pc) e =
    read_lines-metric n "decision" "1" _ _ (decision_labels dec) r v (flag-solid true)
    ∙ rw (e, decision_key_lem dec pn pc)
        (read_key-decision dec.node (action_text dec.action) (reason_text dec.reason)
          (level_label dec.level) dec.condition pn (action_plain dec.action)
          (reason_plain dec.reason) (level_plain dec.level) pc n w h)

pub read_decisions :
    (n : String) (decs : List Decision) (r : Registry) (v w : View)
    → without "\"" n ≡ true
    → All IsLegible decs
    → read_lines n r.lines v ≡ some w
    → read_lines n (each decision_sample decs r).lines v ≡ some (seen n decs w)
read_decisions n [] r v w h l e = e
read_decisions n (dec ∷ decs) r v w h l e =
    read_decisions n decs (decision_sample dec r) v (seen n (dec ∷ []) w) h l.1
      (read_decision n dec r v w h l.0 e)
