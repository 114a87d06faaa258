-- ===== src/Recorder.antt =====
-- tools/stress-recorder.py: `guard_view`, what the recorder reads of one node in the guard's metrics.
-- `none` stands for the IndexError of a label that no quote follows.

pub mod NodeView
pub mod Samples
pub mod Plain
pub mod Keys
pub mod DecisionKey
pub mod Reading
pub mod Lines
pub mod GuardView
mod RecorderTests
use gpu_node_health.Base.Bind.{◌>>=◌}
use gpu_node_health.Base.{
  String, ◌<>◌, Bool, true, false, ◌&&◌, ◌||◌, List, [], ◌∷◌, Option, none, some, ◌=s=◌,
  if◌then◌else◌,
}
use gpu_node_health.Base.Text.{starts_with, is_part}
use gpu_node_health.Base.Strip.{strip, split_at}
use gpu_node_health.Base.Lines.{splitlines, last_space, after_first}

pub record View : Type 0 where
  pub reason : String
  pub level : String
  pub cordons : String
  pub capacity : String
  pub loop_errors : String
  pub event_errors : String

abbrev pub unknown : View
unknown = record {
  reason = "?";
  level = "?";
  cordons = "?";
  capacity = "?";
  loop_errors = "?";
  event_errors = "?";
}

-- `parts[1]`
abbrev pub second : List String → Option String
second [] = none
second (a ∷ []) = none
second (a ∷ b ∷ rest) = some b

-- The value of a label, `old` where the key does not hold it.
abbrev pub label_of : Option String → String → Option String
label_of none old = some old
label_of (some rest) old = second (split_at "\"" rest)

-- The loop over the two labels of a decision.
abbrev pub read_labels : String → View → Option View
read_labels key v = do
  reason ← label_of (after_first "reason=" key) v.reason
  level ← label_of (after_first "level=" key) v.level
  some (record v { reason = reason; level = level })

-- The tests on the key of a sample.
unfoldable pub read_key : String → String → String → View → Option View
unfolding strip after_first split_at
read_key node key val v =
    if starts_with key "gpuguard_decision{" && is_part ("node=\"" <> (node <> "\"")) key
    then if strip val =s= "1" || strip val =s= "1.0" then read_labels key v else some v
    else if key =s= "gpuguard_cordons_total"
    then some (record v { cordons = strip val })
    else if key =s= "gpuguard_healthy_capacity"
    then some (record v { capacity = strip val })
    else if key =s= "gpuguard_loop_errors_total"
    then some (record v { loop_errors = strip val })
    else if key =s= "gpuguard_event_errors_total"
    then some (record v { event_errors = strip val })
    else some v

-- A line that holds a space, cut at the last one.
abbrev pub read_parts : String → Option (String × String) → View → Option View
read_parts node none v = some v
read_parts node (some (key, val)) v = read_key node key val v

unfoldable pub read_line : String → String → View → Option View
unfolding read_key last_space
read_line node line v = if starts_with line "#" then some v else read_parts node (last_space line) v

unfoldable pub read_lines : String → List String → View → Option View
unfolding read_line
read_lines node [] v = some v
read_lines node (line ∷ lines) v = do v' ← read_line node line v; read_lines node lines v'

-- `text` is `none` where the guard does not answer.
unfoldable pub guard_view : Option String → String → Option View
unfolding read_lines splitlines
guard_view none node = some unknown
guard_view (some text) node =
    if text =s= "" then some unknown else read_lines node (splitlines text) unknown
