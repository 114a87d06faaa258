-- ===== src/Recorder/DecisionKey.antt =====
-- The key under which guard/gpu_node_guard/metrics.py writes a decision, in the parts that a search
-- passes over.
use text.Mathlib.TextLemmas.{nil-append, append_assoc}
use gpu_node_health.Base.{String, ◌<>◌, true, ◌≡◌, sym}
use gpu_node_health.Base.Search.{quote_append}
use gpu_node_health.Guard.Metrics.{suffix, decision_labels, action_text, reason_text, level_label}
use gpu_node_health.Guard.Policy.Types.{Decision}
use gpu_node_health.Recorder.Plain.{is_plain, action_plain, reason_plain, level_plain, esc_plain}
use gpu_node_health.Recorder.Keys.{decision_key}

opened : (y : String) → "=\"" <> y ≡ "=" <> ("\"" <> y)
opened y = append_assoc "=" "\"" y

-- The key of a decision as the guard writes it.
pub decision_key_lem :
    (dec : Decision)
    → is_plain dec.node ≡ true
    → is_plain dec.condition ≡ true
    → ("gpuguard_" <> "decision") <> suffix (decision_labels dec)
      ≡ decision_key dec.node
          (action_text dec.action)
          (reason_text dec.reason)
          (level_label dec.level)
          dec.condition
unfolding suffix decision_labels
decision_key_lem dec pn pc =
    let pa = action_plain dec.action in
    let pr = reason_plain dec.reason in
    let pl = level_plain dec.level in
    let joined = λ (a b y : String). sym (append_assoc a b y) in
    simp
      (
        esc_plain dec.node pn,
        esc_plain (action_text dec.action) pa,
        esc_plain (reason_text dec.reason) pr,
        esc_plain (level_label dec.level) pl,
        esc_plain dec.condition pc,
        append_assoc,
      )
      (simp (
        opened,
        nil-append,
        joined "decision" "{",
        joined "gpuguard_" "decision{",
        joined "node" "=",
        joined "action" "=",
        joined "reason" "=",
        joined "level" "=",
        joined "condition" "=",
        quote_append,
      ))
