-- ===== src/Guard/Policy/RateLimit.antt =====
-- How many cordons one call of guard/gpu_node_guard/policy.py, `decide`, can ask for, and which
-- nodes its decisions are about.
use gpu_node_health.Base.{ℕ, ◌+◌, ◌≤◌, String, ◌≡◌, refl, ◌⊎◌, Option, List, [], ◌∷◌, map, arith}
use gpu_node_health.Base.Int.{ℤ, pos, ◌-ℤ◌, -ℤ_parts, ◌≤ℤ◌, Instant, pos_part}
use gpu_node_health.Guard.Policy.Types.{Node, Action, cordon, noop, Decision, PolicyConfig}
use gpu_node_health.Guard.Policy.Guardrails.{node-decide_node}
use gpu_node_health.Guard.Policy.{text_or_empty, recent_count, decide_node, decide_from, decide}

abbrev pub is_cordon : Action → ℕ
is_cordon cordon = 1
is_cordon noop = 0

abbrev pub cordon_count : List Decision → ℕ
cordon_count [] = 0
cordon_count (d ∷ ds) = is_cordon d.action + cordon_count ds

module _ (parse_time : Option String → Option Instant) (now : Instant) (cfg : PolicyConfig)
    (nodes : List Node) where
  -- A cordon needs a budget and takes one from it; any other decision leaves the budget alone.
  pub budget-decide_node :
      (node : Node) (budget : ℤ)
      → let r = decide_node parse_time now cfg nodes node budget in
        ((r.0.action ≡ noop) × (r.1 ≡ budget))
        ⊎ ((r.0.action ≡ cordon) × (pos 1 ≤ℤ budget) × (r.1 ≡ budget -ℤ pos 1))
  unfolding decide_node
  budget-decide_node node budget = ground arith

  cordon_count-decide_from :
      (rest : List Node) (budget : ℤ)
      → cordon_count (decide_from parse_time now cfg nodes budget rest) ≤ pos_part budget
  unfolding decide_from
  cordon_count-decide_from [] budget = omega arith
  cordon_count-decide_from (node ∷ rest) budget = ground (
    arith,
    budget-decide_node node budget,
    -ℤ_parts budget (pos 1),
    cordon_count-decide_from rest (decide_node parse_time now cfg nodes node budget).1,
  )

  -- One call asks for no cordon, or for so few that they and the recorded cordons of the window
  -- together are at most the configured number.
  pub cordon_count-decide :
      (recent : List Instant)
      → (cordon_count (decide parse_time now cfg nodes recent) ≡ 0)
        ⊎ (pos (
              cordon_count (decide parse_time now cfg nodes recent)
              + recent_count now cfg.rate_limit_window_seconds recent)
            ≤ℤ cfg.max_cordons_per_window)
  unfolding decide
  cordon_count-decide recent =
      let total = cfg.max_cordons_per_window in
      let spent = recent_count now cfg.rate_limit_window_seconds recent in
      ground
        (arith, -ℤ_parts total (pos spent), cordon_count-decide_from nodes (total -ℤ pos spent))

  node-decide_from :
      (rest : List Node) (budget : ℤ)
      → map (λ d. d.node) (decide_from parse_time now cfg nodes budget rest)
        ≡ map (λ n. text_or_empty n.name) rest
  unfolding decide_from
  node-decide_from [] budget = refl
  node-decide_from (node ∷ rest) budget = cc (
    node-decide_node parse_time now cfg nodes node budget,
    node-decide_from rest (decide_node parse_time now cfg nodes node budget).1,
  )

  -- There is one decision for each watched node, in the order of the nodes.
  pub node-decide :
      (recent : List Instant)
      → map (λ d. d.node) (decide parse_time now cfg nodes recent)
        ≡ map (λ n. text_or_empty n.name) nodes
  unfolding decide
  node-decide recent = node-decide_from nodes _
