-- ===== src/Recorder/GuardView.antt =====
-- What tools/stress-recorder.py reads of one node in the text that guard/gpu_node_guard/metrics.py serves.
use package.text.Mathlib.TextLemmas.{cons-append}
use gpu_node_health.Base.{
  String, ◌<>◌, false, true, ◌≡◌, refl, List, [], ◌∷◌, some, ◌=s=◌, join, ◌∙◌,
}
use gpu_node_health.Base.Lists.{All}
use gpu_node_health.Base.Show.{show_ℕ}
use gpu_node_health.Base.Lines.{splitlines, splitlines-join, last_space}
use gpu_node_health.Base.Matching.{without, cons-ne-nil}
use gpu_node_health.Guard.World.{GuardConfig, GuardState}
use gpu_node_health.Guard.Metrics.{
  totals, node_samples, exporter_samples, each, decision_sample, collect, render,
}
use gpu_node_health.Guard.Metrics.Unbroken.{IsUnbroken}
use gpu_node_health.Recorder.{View, unknown, read_lines, read_line, guard_view}
use gpu_node_health.Recorder.Reading.{
  read_totals, read_decisions, each-Unread, node_samples-Unread, exporter_samples-Unread, seen,
}
use gpu_node_health.Recorder.Lines.{IsLegibleState, collect-IsUnbroken}

-- What the recorder knows of a state before it comes to the decisions.
abbrev pub counts : GuardState → View
counts state = record {
  reason = "?";
  level = "?";
  cordons = show_ℕ state.cordons_total;
  capacity = show_ℕ state.healthy_capacity;
  loop_errors = show_ℕ state.loop_errors;
  event_errors = show_ℕ state.event_errors;
}

read_lines-collect :
    (n : String) (cfg : GuardConfig) (state : GuardState)
    → without "\"" n ≡ true
    → IsLegibleState state
    → read_lines n (collect cfg state).lines unknown ≡ some (seen n state.decisions (counts state))
unfolding collect
read_lines-collect n cfg state h l =
    let nodes = each node_samples state.node_states (totals cfg state) in
    let decided = each decision_sample state.decisions nodes in
    let read_nodes =
      each-Unread n node_samples (node_samples-Unread n) state.node_states (totals cfg state)
        unknown
      ∙ read_totals n cfg state in
    each-Unread n exporter_samples (exporter_samples-Unread n) state.exporter_decisions decided
      unknown
    ∙ read_decisions n state.decisions nodes unknown (counts state) h l.decisions read_nodes

-- The joined text reads as its lines do; an empty list of lines is a line without a space.
read_lines-text :
    (n : String) (xs : List String) (v : View)
    → All IsUnbroken xs
    → read_lines n (splitlines (join "\n" xs <> "\n")) v ≡ read_lines n xs v
unfolding read_lines
read_lines-text n [] v h = unfold splitlines read_line last_space in refl
read_lines-text n (x ∷ xs) v h = rw (splitlines-join x xs h) refl

ended-ne-nil : (s : String) → ((s <> "\n") =s= "") ≡ false
ended-ne-nil String.[] = refl
ended-ne-nil (String.◌∷◌ c s) = rw (cons-append, cons-ne-nil) refl

-- If the node's name holds no quotation mark, and no node, pod or condition name in the state of the
-- guard holds a quotation mark, an equals sign, a backslash or a line boundary, then the recorder
-- reads the served text without an error. It finds the counts of cordons, of healthy capacity, of
-- loop errors and of event errors as they are printed, and the reason and the level of the last
-- decision on the node; where there is no decision on it, a question mark for both.
pub guard_view-render :
    (n : String) (cfg : GuardConfig) (state : GuardState)
    → without "\"" n ≡ true
    → IsLegibleState state
    → guard_view (some (render cfg state)) n ≡ some (seen n state.decisions (counts state))
unfolding guard_view render
guard_view-render n cfg state h l =
    let lines = (collect cfg state).lines in
    rw
      (
        ended-ne-nil (join "\n" lines),
        read_lines-text n lines unknown (collect-IsUnbroken cfg state l),
      )
      (read_lines-collect n cfg state h l)
