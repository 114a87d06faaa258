-- ===== src/Recorder/Lines.antt =====
-- That the whole text of guard/gpu_node_guard/metrics.py falls back into its lines.
use gpu_node_health.Base.{String, true, not, ◌≡◌, refl, [], ◌∷◌, ◌++◌, arith, ◌=s=◌}
use gpu_node_health.Base.Lists.{All}
use gpu_node_health.Base.Chars.{is_break, all_chars_mono}
use gpu_node_health.Base.Parse.{show_ℤ_solid}
use gpu_node_health.Base.Show.{show_ℤ, whole_seconds, show_ℕ}
use gpu_node_health.Guard.World.{GuardConfig, GuardState}
use gpu_node_health.Guard.Metrics.{
  Registry, totals, flag, label, esc, node_samples, exporter_samples, elapsed_text, decision_sample,
  decision_labels, pod_action_text, pod_reason_text, action_text, reason_text, level_label, empty,
  collect,
}
use gpu_node_health.Guard.Metrics.Unbroken.{
  IsUnbroken, metric-IsUnbroken, solid-IsUnbroken, each-IsUnbroken, concat-IsUnbroken,
}
use gpu_node_health.Recorder.Reading.{flag-solid, show_ℕ-solid, elapsed_solid, IsLegible}
use gpu_node_health.Recorder.Samples.{solid}
use gpu_node_health.Recorder.Plain.{
  plain_char, is_plain, esc_plain, action_plain, reason_plain, level_plain,
}
use gpu_node_health.Guard.Policy.Types.{Decision, NodeState}
use gpu_node_health.Guard.Supervisor.{PodAction, PodReason, reachable, delete, PodDecision}

totals-IsUnbroken :
    (cfg : GuardConfig) (state : GuardState) → All IsUnbroken (totals cfg state).lines
unfolding totals is_break
totals-IsUnbroken cfg state =
    let add =
      λ (name value mtype help : String) (r : Registry) (pn : IsUnbroken name)
          (pv : solid value ≡ true) (pt : IsUnbroken mtype) (ph : IsUnbroken help)
          (h : All IsUnbroken r.lines).
        metric-IsUnbroken name value mtype help [] r (pn, solid-IsUnbroken value pv, pt, ph, tt)
          h in
    add "cordons_total" (show_ℕ state.cordons_total) _ _ _ refl (show_ℕ-solid state.cordons_total)
      refl refl
      (add "min_healthy_nodes" (show_ℤ cfg.policy.min_healthy_nodes) _ _ _ refl
        (show_ℤ_solid cfg.policy.min_healthy_nodes) refl refl
        (add "healthy_capacity" (show_ℕ state.healthy_capacity) _ _ _ refl
          (show_ℕ-solid state.healthy_capacity) refl refl
          (add "nodes_watched" (show_ℕ state.nodes_watched) _ _ _ refl
            (show_ℕ-solid state.nodes_watched) refl refl
            (add "event_errors_total" (show_ℕ state.event_errors) _ _ _ refl
              (show_ℕ-solid state.event_errors) refl refl
              (add "loop_errors_total" (show_ℕ state.loop_errors) _ _ _ refl
                (show_ℕ-solid state.loop_errors) refl refl
                (add "last_loop_timestamp_seconds" (show_ℤ (whole_seconds state.last_loop)) _ _ _
                  refl (show_ℤ_solid (whole_seconds state.last_loop)) refl refl
                  (add "enforce_mode" (flag (cfg.policy.mode =s= "enforce")) _ _ _ refl
                    (flag-solid (cfg.policy.mode =s= "enforce")) refl refl
                    (add "is_leader" (flag state.is_leader) _ _ _ refl (flag-solid state.is_leader)
                      refl refl (add "up" "1" _ _ empty refl (flag-solid true) refl refl tt)))))))))

plain-IsUnbroken : (s : String) → is_plain s ≡ true → IsUnbroken s
plain-IsUnbroken s h =
    all_chars_mono plain_char (λ c. not (is_break c)) (λ c e. unfold plain_char in ground arith) s h

label-IsUnbroken : (k v : String) → IsUnbroken k → is_plain v ≡ true → IsUnbroken (label (k, v))
unfolding label is_break
label-IsUnbroken k v h p =
    let value : IsUnbroken (esc v) = rw (esc_plain v p) (plain-IsUnbroken v p) in
    concat-IsUnbroken (k ∷ "=\"" ∷ esc v ∷ "\"" ∷ []) (h, (refl, (value, (refl, tt))))

decision_sample-IsUnbroken :
    (dec : Decision) (r : Registry)
    → IsLegible dec
    → All IsUnbroken r.lines
    → All IsUnbroken (decision_sample dec r).lines
unfolding decision_sample decision_labels is_break
decision_sample-IsUnbroken dec r (pn, pc) h =
    let add = label-IsUnbroken in
    let node = add "node" dec.node refl pn in
    let action = add "action" (action_text dec.action) refl (action_plain dec.action) in
    let reason = add "reason" (reason_text dec.reason) refl (reason_plain dec.reason) in
    let level = add "level" (level_label dec.level) refl (level_plain dec.level) in
    let condition = add "condition" dec.condition refl pc in
    metric-IsUnbroken "decision" "1" "gauge" _ (decision_labels dec) r
      (refl, refl, refl, refl, (node, (action, (reason, (level, (condition, tt)))))) h

node_samples-IsUnbroken :
    (st : NodeState) (r : Registry)
    → is_plain st.node ≡ true
    → All IsUnbroken r.lines
    → All IsUnbroken (node_samples st r).lines
unfolding node_samples is_break
node_samples-IsUnbroken st r p h =
    let labels = ("node", st.node) ∷ [] in
    let node = label-IsUnbroken "node" st.node refl p in
    let schedulable = solid-IsUnbroken (show_ℕ st.unschedulable) (show_ℕ-solid st.unschedulable) in
    let ready = solid-IsUnbroken (show_ℕ st.ready) (show_ℕ-solid st.ready) in
    metric-IsUnbroken "node_ready" (show_ℕ st.ready) "gauge" _ labels _
      (refl, ready, refl, refl, (node, tt))
      (metric-IsUnbroken "node_unschedulable" (show_ℕ st.unschedulable) "gauge" _ labels r
        (refl, schedulable, refl, refl, (node, tt)) h)

pod_action_plain : (a : PodAction) → is_plain (pod_action_text a) ≡ true
unfolding pod_action_text plain_char
pod_action_plain delete = refl
pod_action_plain _ = refl

pod_reason_plain : (r : PodReason) → is_plain (pod_reason_text r) ≡ true
unfolding pod_reason_text plain_char
pod_reason_plain reachable = refl
pod_reason_plain _ = refl

-- An exporter decision whose names are written as they are.
abbrev pub IsLegiblePod : PodDecision → Type 0
IsLegiblePod dec = (is_plain dec.pod ≡ true) × (is_plain dec.node ≡ true)

exporter_samples-IsUnbroken :
    (dec : PodDecision) (r : Registry)
    → IsLegiblePod dec
    → All IsUnbroken r.lines
    → All IsUnbroken (exporter_samples dec r).lines
unfolding exporter_samples is_break
exporter_samples-IsUnbroken dec r (pp, pn) h =
    let add = label-IsUnbroken in
    let who = ("exporter_pod", dec.pod) ∷ ("node", dec.node) ∷ [] in
    let what =
      ("action", pod_action_text dec.action) ∷ ("reason", pod_reason_text dec.reason) ∷ [] in
    let time = elapsed_text dec.reason dec.unreachable_for in
    let elapsed = solid-IsUnbroken time (elapsed_solid dec.reason dec.unreachable_for) in
    let pod = add "exporter_pod" dec.pod refl pp in
    let node = add "node" dec.node refl pn in
    let action = add "action" (pod_action_text dec.action) refl (pod_action_plain dec.action) in
    let reason = add "reason" (pod_reason_text dec.reason) refl (pod_reason_plain dec.reason) in
    metric-IsUnbroken "exporter_unreachable_seconds" time "gauge" _ who _
      (refl, elapsed, refl, refl, (pod, (node, tt)))
      (metric-IsUnbroken "exporter_decision" "1" "gauge" _ (who ++ what) r
        (refl, refl, refl, refl, (pod, (node, (action, (reason, tt))))) h)

-- The names that a state of the guard holds are written as they are.
pub record IsLegibleState (state : GuardState) : Type 0 where
  pub nodes : All (λ st. is_plain st.node ≡ true) state.node_states
  pub decisions : All IsLegible state.decisions
  pub pods : All IsLegiblePod state.exporter_decisions

pub collect-IsUnbroken :
    (cfg : GuardConfig) (state : GuardState)
    → IsLegibleState state
    → All IsUnbroken (collect cfg state).lines
unfolding collect
collect-IsUnbroken cfg state l =
    let nodes =
      each-IsUnbroken node_samples (λ st. is_plain st.node ≡ true) node_samples-IsUnbroken
        state.node_states (totals cfg state) l.nodes (totals-IsUnbroken cfg state) in
    let decided =
      each-IsUnbroken decision_sample IsLegible decision_sample-IsUnbroken state.decisions _
        l.decisions nodes in
    each-IsUnbroken exporter_samples IsLegiblePod exporter_samples-IsUnbroken
      state.exporter_decisions _ l.pods decided
