-- ===== src/Guard/Policy/DryRun.antt =====
-- What a change of the mode changes in guard/gpu_node_guard/policy.py, and what a young condition
-- hides.
use gpu_node_health.Base.{String, ◌≡◌, true, Option, some, List, arith, eq_iff}
use gpu_node_health.Base.Int.{ℤ, Instant}
use gpu_node_health.Base.Dict.{get}
use gpu_node_health.Guard.Policy.Types.{
  Condition, Node, Reason, too_young, observe_mode, out_of_scope, cordoned, noop, PolicyConfig,
  gpu_unrecoverable,
}
use gpu_node_health.Guard.Policy.{
  condition_index, is_true, held_too_short, trigger_level, decide_node, first_true, mark_age,
}

-- What observe mode says where enforce mode gives the reason.
abbrev pub as_observed : Reason → Reason
as_observed cordoned = observe_mode
as_observed out_of_scope = observe_mode
as_observed r = r

abbrev pub observing : PolicyConfig → PolicyConfig
observing cfg = record cfg { mode = "observe" }

module _ (parse_time : Option String → Option Instant) (now : Instant) (cfg : PolicyConfig)
    (nodes : List Node) where
  -- The dry run is complete: with the same budget, observe mode evaluates every guardrail that
  -- enforce mode does. It gives the reason of enforce mode for each node, but observe-mode exactly
  -- where enforce mode would cordon or would stop at the scope.
  pub dry_run_complete :
      (node : Node) (budget : ℤ)
      → cfg.mode ≡ "enforce"
      → (decide_node parse_time now (observing cfg) nodes node budget).0.reason
        ≡ as_observed (decide_node parse_time now cfg nodes node budget).0.reason
  unfolding decide_node
  dry_run_complete node budget e = ground (arith, (eq_iff cfg.mode "enforce").1 e)

  -- A true GPUUnrecoverable that is too young decides alone: the node is not cordoned, with the
  -- reason condition-too-young, whatever the other conditions are and however long they have held.
  pub young_masks :
      (node : Node) (budget : ℤ) (cond : Condition)
      → get gpu_unrecoverable (condition_index node) ≡ some cond
      → is_true (some cond) ≡ true
      → held_too_short now cfg.condition_min_age_seconds (parse_time cond.last_transition_time)
        ≡ true
      → ((decide_node parse_time now cfg nodes node budget).0.action ≡ noop)
        × ((decide_node parse_time now cfg nodes node budget).0.reason ≡ too_young)
  unfolding decide_node trigger_level first_true mark_age
  young_masks node budget cond g t y = (ground arith, ground arith)
