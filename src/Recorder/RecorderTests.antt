-- ===== src/Recorder/RecorderTests.antt =====
-- Runs of the recorder's reader on a small text of the guard, and the theorem at it.
use gpu_node_health.Base.{◌≡◌, refl, some, none, [], ◌∷◌, true}
use gpu_node_health.Guard.Policy.Types.{noop, capacity_floor, healthy, l3, gpu_unrecoverable}
use gpu_node_health.Guard.World.{GuardState}
use gpu_node_health.Guard.Samples.{guard, start}
use gpu_node_health.Base.Show.{show_ℤ, whole_seconds}
use gpu_node_health.Guard.Metrics.{
  render, decision_sample, metric, node_samples, totals, suffix, esc, decision_labels,
}
use gpu_node_health.Recorder.{guard_view}
use gpu_node_health.Recorder.Plain.{plain_char}
use gpu_node_health.Recorder.Reading.{seen}
use gpu_node_health.Recorder.GuardView.{counts, guard_view-render}

abbrev refusing : GuardState
refusing = record start.state {
  is_leader = true;
  healthy_capacity = 2;
  decisions =
      record {
        node = "n1";
        action = noop;
        reason = capacity_floor;
        level = some l3;
        condition = gpu_unrecoverable;
        message = "m";
      }
      ∷ record {
        node = "n2";
        action = noop;
        reason = healthy;
        level = none;
        condition = "";
        message = "";
      }
      ∷ [];
  node_states = record { node = "n1"; unschedulable = 0; ready = 1 } ∷ [];
}

guard_view-render_example :
    guard_view (some (render guard refusing)) "n1"
    ≡ some (seen "n1" refusing.decisions (counts refusing))
unfolding plain_char
guard_view-render_example =
    guard_view-render "n1" guard refusing refl
      (record { nodes = (refl, tt); decisions = ((refl, refl), ((refl, refl), tt)); pods = tt })

-- What is read of the node is the refusal.
refusal_test :
    guard_view (some (render guard refusing)) "n1"
    ≡ some (record {
      reason = "capacity-floor";
      level = "L3";
      cordons = "0";
      capacity = "2";
      loop_errors = "0";
      event_errors = "0";
    })
unfolding guard_view render decision_sample metric node_samples totals suffix show_ℤ whole_seconds
    esc decision_labels
refusal_test = refl
