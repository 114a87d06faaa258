-- ===== src/Agent/ProbeTests.antt =====
-- Runs of Agent/Probe.antt at concrete inputs.
use gpu_node_health.Base.{
  String, ◌<>◌, true, false, ◌=s=◌, ◌≡◌, refl, Option, none, some, List, [], ◌∷◌, if◌then◌else◌,
  map,
}
use gpu_node_health.Base.Int.{pos}
use gpu_node_health.Base.Lists.{All, join}
use gpu_node_health.Base.Chars.{is_space, is_break, is_digit}
use gpu_node_health.Base.Strip.{replace_char}
use gpu_node_health.Base.Dict.{get, put}
use gpu_node_health.Base.Lines.{splitlines}
use gpu_node_health.Base.Cut.{words}
use gpu_node_health.Agent.Probe.{
  Float, finite, infinite, is_letter, is_key_char, match_sample, sample_rest, labels_and_value,
  label_here, label_rest, quoted_value, find_labels, unquote, parse_labels, read_line, read_lines,
  read_body,
}
use gpu_node_health.Agent.Probe.Samples.{
  Entry, comment, gpu, total, other, line_of, IsEntry, healthy_count, unhealthy_gpus, last_total,
  read_body-join,
}

-- `float` at the texts that are used here.
abbrev float : String → Option Float
float s =
    if s =s= "1"
    then some (finite (pos 1) true)
    else if s =s= "0"
    then some (finite (pos 0) false)
    else if s =s= "8.0"
    then some (finite (pos 8) true)
    else if s =s= "+Inf"
    then some (infinite false)
    else none

abbrev gpu_3 : List (String × String)
gpu_3 = ("gpu_id", "3") ∷ ("pod", "train-\"a\"") ∷ []

abbrev first_entry : Entry
first_entry = comment " HELP gpu_health Health"

abbrev entries : List Entry
entries =
    gpu (("gpu_id", "2") ∷ []) "1"
    ∷ gpu gpu_3 "0"
    ∷ other "gpu_power" (("gpu_id", "3") ∷ []) "80"
    ∷ total (("host", "n1") ∷ []) "8.0"
    ∷ []

entries_IsEntry : All (IsEntry float) (first_entry ∷ entries)
unfolding is_break is_letter is_key_char is_space is_digit replace_char
entries_IsEntry = (
  refl,
  (
    (((refl, refl), tt), (refl, refl), refl),
    (
      (((refl, refl), ((refl, refl), tt)), (refl, refl), refl),
      ((refl, (refl, refl), refl, refl, refl), (((refl, refl), refl, refl), tt)),
    ),
  ),
)

read_body-join_example :
    read_body float (join "\n" (map line_of (first_entry ∷ entries)) <> "\n")
    ≡ some (record {
      healthy = healthy_count float (first_entry ∷ entries);
      unhealthy = unhealthy_gpus float (first_entry ∷ entries);
      gpu_total = last_total float (first_entry ∷ entries) (pos 0);
    })
read_body-join_example = read_body-join float first_entry entries entries_IsEntry

body_test :
    read_body float
      "gpu_health{gpu_id=\"3\",pod=\"p\"} 0\ngpu_health{gpu_id=\"4\"} 1\ngpu_nodes_total{a=\"b\"}  8.0 \nx 1"
    ≡ some (record {
      healthy = 1;
      unhealthy = (record { gpu_id = "3"; namespace = ""; pod = "p"; container = "" }) ∷ [];
      gpu_total = pos 8;
    })
unfolding read_body read_lines read_line match_sample sample_rest labels_and_value label_here
    label_rest quoted_value find_labels unquote parse_labels splitlines words is_break is_letter
    is_key_char is_space is_digit get put
body_test = refl

-- An infinite number of GPUs raises an exception.
infinite_total_test : read_body float "gpu_nodes_total{} +Inf\n" ≡ none
unfolding read_body read_lines read_line match_sample sample_rest labels_and_value label_here
    label_rest quoted_value find_labels unquote parse_labels splitlines words is_break is_letter
    is_key_char is_space is_digit
infinite_total_test = refl
