-- ===== src/Agent/MetricsTests.antt =====
-- A line of the agent's metrics, and the theorem on its labels at a value with every special character.
use gpu_node_health.Base.{◌<>◌, ◌≡◌, refl, false, some, [], ◌∷◌}
use gpu_node_health.Base.Dict.{put}
use gpu_node_health.Base.Strip.{replace_char}
use gpu_node_health.Agent.Metrics.{esc, Buf, metric, text}
use gpu_node_health.Agent.Metrics.Labels.{read_value, read_value-esc}

read_value-esc_example :
    read_value false (esc "a\"b\\c\nd" <> ("\"" <> "} 1")) ≡ some ("a\"b\\c\nd", "} 1")
read_value-esc_example = read_value-esc "a\"b\\c\nd" "} 1"

abbrev empty : Buf
empty = record { node = "n1"; lines = []; declared = [] }

two_samples :
    text (
      metric "dstate_tasks" "2"
        (("comm", "a\"b") ∷ [])
        "gauge"
        "Tasks in D."
        (metric "dstate_tasks" "1" (("comm", "c") ∷ []) "gauge" "Tasks in D." empty))
    ≡ "# HELP gpuhealth_dstate_tasks Tasks in D.\n# TYPE gpuhealth_dstate_tasks gauge\ngpuhealth_dstate_tasks{node=\"n1\",comm=\"c\"} 1\ngpuhealth_dstate_tasks{node=\"n1\",comm=\"a\\\"b\"} 2\n"
unfolding text metric esc replace_char put
two_samples = refl
