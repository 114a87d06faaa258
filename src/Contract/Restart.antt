-- ===== src/Contract/Restart.antt =====
-- What a restart of the agent (agent/gpu_health_agent/main.py) does to the guard's decision.
use gpu_node_health.Base.{String, ◌≡◌, refl, ap, sym, ◌∙◌, true, Option, some, List, []}
use gpu_node_health.Base.Int.{ℤ, ◌-ℤ◌, ltb_ℤ, Instant, seconds}
use gpu_node_health.Base.Dict.{get, put}
use gpu_node_health.Agent.Signals.{Kernlog, Dstate, Exporter}
use gpu_node_health.Agent.Conditions.Infos.{Evaluator}
use gpu_node_health.Agent.Conditions.{Sample, evaluate, conditions}
use gpu_node_health.Agent.Conditions.Active.{active_of}
use gpu_node_health.Agent.Publisher.{silent, publish, publish_each, publish_one, observe}
use gpu_node_health.Guard.Policy.{condition_index, is_true, decide_node, held_too_short}
use gpu_node_health.Guard.Policy.Types.{
  Condition, Node, noop, too_young, PolicyConfig, gpu_unrecoverable,
}
use gpu_node_health.Guard.Policy.DryRun.{young_masks}
use gpu_node_health.Contract.{report, Merged}
use gpu_node_health.Contract.EndToEnd.{index_from-In, is_true-report}

module _ (e : Evaluator) (now : Instant) (kernlog : Kernlog) (dstate : Dstate) (exporter : Exporter)
    (history : List Sample) (stamp : String) (node : Node)
    (m : Merged (report e now kernlog dstate exporter history stamp silent) node) where
  -- The first publish of a new agent is the transition time on the Node.
  first_condition :
      (c : Condition) × (get gpu_unrecoverable (condition_index node) ≡ some c)
      × (c.last_transition_time ≡ some stamp)
  unfolding evaluate conditions publish publish_each publish_one observe get put condition_index
  first_condition = (_, index_from-In _ node.conditions [] m.unique refl m.present.0, refl)

  -- After a restart of the agent, a node whose GPUUnrecoverable is active is not cordoned, however long
  -- ago it became active: once the API server has merged the first publish of the new agent, and until
  -- the minimum age has passed since that publish, the guard's decision is noop with the reason too-young,
  -- whatever else is on the node and whatever the other nodes, the configuration and the budget are.
  pub restart_delays_cordon :
      (parse_time : Option String → Option Instant) (guard_now : Instant) (cfg : PolicyConfig)
      (nodes : List Node) (budget : ℤ) (t : Instant)
      → active_of "GPUUnrecoverable" (evaluate e now kernlog dstate exporter history).0 ≡ true
      → parse_time (some stamp) ≡ some t
      → ltb_ℤ (guard_now -ℤ t) (seconds cfg.condition_min_age_seconds) ≡ true
      → ((decide_node parse_time guard_now cfg nodes node budget).0.action ≡ noop)
        × ((decide_node parse_time guard_now cfg nodes node budget).0.reason ≡ too_young)
  restart_delays_cordon parse_time guard_now cfg nodes budget t active read young =
      let (c, found, since) = first_condition in
      young_masks parse_time guard_now cfg nodes node budget c found
        (ap is_true (sym found)
          ∙ is_true-report e now kernlog dstate exporter history stamp silent node
              "GPUUnrecoverable" refl m
          ∙ active)
        (ap (λ o. held_too_short guard_now cfg.condition_min_age_seconds (parse_time o)) since
          ∙ ap (held_too_short guard_now cfg.condition_min_age_seconds) read
          ∙ young)
