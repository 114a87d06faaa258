-- ===== src/Contract/Decisions.antt =====
-- From the agent's readings to the guard's decision.
use gpu_node_health.Base.{
  String, ◌≡◌, refl, ◌∙◌, true, ◌||◌, Option, some, List, [], ◌∷◌, arith, inl, inr, Option-cases,
}
use gpu_node_health.Base.Int.{ℤ, Instant}
use gpu_node_health.Base.Dict.{Dict, get}
use gpu_node_health.Agent.Signals.{Kernlog, Dstate, Exporter}
use gpu_node_health.Agent.Conditions.Infos.{Evaluator, is_false}
use gpu_node_health.Agent.Conditions.{Sample, evaluate}
use gpu_node_health.Agent.Conditions.Active.{active_of}
use gpu_node_health.Agent.Conditions.Stale.{some_unread, stale_iff_blind}
use gpu_node_health.Agent.Publisher.{Publisher}
use gpu_node_health.Guard.Policy.{
  condition_index, is_true, trigger_level, decide_node, scan_levels, first_true, judge, mark_age,
}
use gpu_node_health.Guard.Policy.Types.{
  Condition, Node, l3, noop, PolicyConfig, gpu_health_data_stale, gpu_unrecoverable,
  gpu_workqueue_stalled,
}
use gpu_node_health.Contract.{report, Merged}
use gpu_node_health.Contract.EndToEnd.{is_true-report}

stale_stops :
    (parse_time : Option String → Option Instant) (now : Instant) (cfg : PolicyConfig)
    (nodes : List Node) (node : Node) (budget : ℤ)
    → is_true (get gpu_health_data_stale (condition_index node)) ≡ true
    → (decide_node parse_time now cfg nodes node budget).0.action ≡ noop
unfolding decide_node judge
stale_stops parse_time now cfg nodes node budget h = ground arith

first_true_head :
    (index : Dict Condition) (k : String) (rest : List String)
    → is_true (get k index) ≡ true
    → (c : Condition) × (first_true index (k ∷ rest) ≡ some c)
unfolding first_true is_true
first_true_head index k rest h = elim (Option-cases (get k index)) [
  | inl e ↦ cc
  | inr (c, e) ↦ (c, ground arith)
]

unrecoverable_is_l3 :
    (parse_time : Option String → Option Instant) (now : Instant) (node : Node) (min_age : ℤ)
    → is_true (get gpu_unrecoverable (condition_index node)) ≡ true
    → (c : Condition) × (trigger_level parse_time now node min_age ≡ some (l3, c))
unfolding trigger_level scan_levels
unrecoverable_is_l3 parse_time now node min_age h =
    let (c, e) =
      first_true_head (condition_index node) gpu_unrecoverable (gpu_workqueue_stalled ∷ []) h in
    (mark_age parse_time now min_age c, ground arith)

module _ (e : Evaluator) (now : Instant) (kernlog : Kernlog) (dstate : Dstate) (exporter : Exporter)
    (history : List Sample) (stamp : String) (p : Publisher) (node : Node)
    (parse_time : Option String → Option Instant) (guard_now : Instant)
    (m : Merged (report e now kernlog dstate exporter history stamp p) node) where
  -- A node whose agent could not read /proc or a log file is never cordoned on its word: once the API
  -- server has merged what the agent sent, the guard's decision on the node is not to cordon, whatever else the agent
  -- found and whatever the other nodes, the configuration and the budget are.
  pub blind_agent_stops_cordon :
      (cfg : PolicyConfig) (nodes : List Node) (budget : ℤ)
      → (is_false dstate.readable || some_unread kernlog.files_ok) ≡ true
      → (decide_node parse_time guard_now cfg nodes node budget).0.action ≡ noop
  blind_agent_stops_cordon cfg nodes budget blind =
      stale_stops parse_time guard_now cfg nodes _ budget (
        is_true-report e now kernlog dstate exporter history stamp p node "GPUHealthDataStale" refl
          m
        ∙ stale_iff_blind e now kernlog dstate exporter history
        ∙ blind)

  -- A fatal GPU event reaches the guard: once the API server has merged an active GPUUnrecoverable, the
  -- guard's trigger level of the node is L3.
  unrecoverable_triggers_l3 :
      (min_age : ℤ)
      → active_of "GPUUnrecoverable" (evaluate e now kernlog dstate exporter history).0 ≡ true
      → (c : Condition) × (trigger_level parse_time guard_now node min_age ≡ some (l3, c))
  unrecoverable_triggers_l3 min_age active = unrecoverable_is_l3 parse_time guard_now _ min_age (
      is_true-report e now kernlog dstate exporter history stamp p node "GPUUnrecoverable" refl m
      ∙ active)
