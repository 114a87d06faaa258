-- ===== src/Contract.antt =====
-- What the agent publishes (agent/gpu_health_agent/main.py, agent/gpu_health_agent/k8s.py) against what
-- the guard reads (guard/gpu_node_guard/policy.py): the conditions on the Node object.
pub mod EndToEnd
pub mod Decisions
pub mod Recorded
pub mod Restart
mod ContractTests
use gpu_node_health.Base.{
  String, ◌≡◌, Bool, true, false, not, ◌&&◌, Option, none, some, List, [], ◌∷◌, map, All, In,
  contains,
}
use gpu_node_health.Base.Int.{Instant}
use gpu_node_health.Agent.Signals.{Kernlog, Dstate, Exporter}
use gpu_node_health.Agent.Conditions.Infos.{Evaluator}
use gpu_node_health.Agent.Conditions.{Sample, evaluate}
use gpu_node_health.Agent.Publisher.{Published, Publisher, publish}
use gpu_node_health.Guard.Policy.{text_or_empty}
use gpu_node_health.Guard.Policy.Types.{Condition, Node}

-- A published condition as the guard reads it back.
abbrev pub to_condition : Published → Condition
to_condition c = record {
  type = some c.type;
  status = some c.status;
  last_transition_time = c.last_transition_time;
  message = some c.message;
  too_young = false;
}

abbrev pub sent : Option (List Published) → List Published
sent none = []
sent (some cs) = cs

-- What an evaluation of the agent and its publish send.
abbrev pub report :
    Evaluator
    → Instant
    → Kernlog
    → Dstate
    → Exporter
    → List Sample
    → String
    → Publisher
    → List Published
report e now kernlog dstate exporter history stamp p =
    sent (publish stamp (evaluate e now kernlog dstate exporter history).0 p).0

abbrev pub distinct : List String → Bool
distinct [] = true
distinct (s ∷ ss) = not (contains s ss) && distinct ss

-- What the API server promises of a Node after a strategic merge patch: the conditions of the patch
-- are there, and, since conditions merge by their type, no type is there twice.
pub record Merged (cs : List Published) (node : Node) : Type 0 where
  pub present : All (λ c. In (to_condition c) node.conditions) cs
  pub unique : distinct (map (λ c. text_or_empty c.type) node.conditions) ≡ true
