-- ===== src/Guard/Policy/Acting.antt =====
-- That guard/gpu_node_guard/policy.py, `decide`, acts where it may.
use gpu_node_health.Base.{
  ◌+◌, String, ◌≡◌, refl, sym, ap, subst, ◌∙◌, ◌⊎◌, inl, inr, true, false, Option, some, List, [],
  ◌∷◌, arith, In, Bool-cases,
}
use gpu_node_health.Base.Int.{
  ℤ, pos, ◌-ℤ◌, -ℤ_parts, ◌≤ℤ◌, ◌<ℤ◌, le→not_ltb_ℤ, Instant, seconds, ltb_ℤ, ltb_ℤ→ge,
}
use gpu_node_health.Base.Dict.{get}
use gpu_node_health.Guard.Policy.Types.{
  Node, l3, cordon, Decision, PolicyConfig, gpu_health_data_stale, gpu_unrecoverable,
}
use gpu_node_health.Guard.Policy.Trigger.{Held}
use gpu_node_health.Guard.Policy.Guardrails.{node-decide_node, decide_node-cordon}
use gpu_node_health.Guard.Policy.RateLimit.{cordon_count, budget-decide_node}
use gpu_node_health.Guard.Policy.{
  text_or_empty, condition_index, is_true, schedulable, healthy_capacity, recent_count,
  trigger_level, first_true, mark_age, decide_node, decide_from, decide, is_cordon_level,
}

module _ (parse_time : Option String → Option Instant) (now : Instant) (cfg : PolicyConfig)
    (nodes : List Node) where
  -- A node that is to be cordoned, stated of its conditions and of the configuration.
  pub record IsDue (node : Node) : Type 0 where
    pub held : Held parse_time now cfg.condition_min_age_seconds node gpu_unrecoverable
    pub unmarked : held.cond.too_young ≡ false
    pub fresh_data : is_true (get gpu_health_data_stale (condition_index node)) ≡ false
    pub in_service : schedulable node ≡ true
    pub floor :
        cfg.min_healthy_nodes
        ≤ℤ pos (
            healthy_capacity parse_time now nodes cfg.condition_min_age_seconds
              (text_or_empty node.name ∷ []))
    pub enforcing : cfg.mode ≡ "enforce"
    pub in_scope : (cfg.enforce_nodes ≡ []) ⊎ In (text_or_empty node.name) cfg.enforce_nodes

  trigger-Held :
      (node : Node) (h : Held parse_time now cfg.condition_min_age_seconds node gpu_unrecoverable)
      → trigger_level parse_time now node cfg.condition_min_age_seconds ≡ some (l3, h.cond)
  unfolding trigger_level first_true mark_age
  trigger-Held node h =
      let old : ltb_ℤ (now -ℤ h.since) (seconds cfg.condition_min_age_seconds) ≡ false =
        le→not_ltb_ℤ (now -ℤ h.since) (seconds cfg.condition_min_age_seconds) h.old_enough in
      ground (arith, h.present, h.holds, h.parsed, old)

  due_node-cordon :
      (node : Node) (budget : ℤ)
      → IsDue node
      → pos 0 <ℤ budget
      → (decide_node parse_time now cfg nodes node budget).0.action ≡ cordon
  due_node-cordon node budget w b =
      (decide_node-cordon parse_time now cfg nodes node budget l3 w.held.cond
        (trigger-Held node w.held) (unfold is_cordon_level in refl) w.unmarked w.fresh_data
        w.in_service w.floor b w.enforcing w.in_scope).0

  -- The decisions hold a cordon of the node.
  abbrev pub IsCordoned : Node → List Decision → Type 0
  IsCordoned node ds =
      (d : Decision) × In d ds × (d.node ≡ text_or_empty node.name) × (d.action ≡ cordon)

  -- While a node is due, it is cordoned, or the cordons use up the budget.
  decide_from-IsDue :
      (rest : List Node) (budget : ℤ) (node : Node)
      → In node rest
      → IsDue node
      → IsCordoned node (decide_from parse_time now cfg nodes budget rest)
        ⊎ (budget ≤ℤ pos (cordon_count (decide_from parse_time now cfg nodes budget rest)))
  unfolding decide_from
  decide_from-IsDue [] budget node m w = elim m [ ]
  decide_from-IsDue (n ∷ rest) budget node (inl e) w = elim (Bool-cases (ltb_ℤ (pos 0) budget)) [
    | inl left ↦ inl (
      (decide_node parse_time now cfg nodes n budget).0,
      inl refl,
      node-decide_node parse_time now cfg nodes n budget ∙ ap (λ x. text_or_empty x.name) (sym e),
      due_node-cordon n budget (subst IsDue e w) (ground arith),
    )
    | inr spent ↦ inr (let none_left = ltb_ℤ→ge (pos 0) budget spent in ground arith)
  ]
  decide_from-IsDue (n ∷ rest) budget node (inr m) w =
      let r = decide_node parse_time now cfg nodes n budget in
      elim (decide_from-IsDue rest r.1 node m w) [
        | inl (d, i, same, c) ↦ inl (d, inr i, same, c)
        | inr used ↦ inr (
            ground (
              arith,
              budget-decide_node parse_time now cfg nodes n budget,
              -ℤ_parts budget (pos 1),
              used,
            ))
      ]

  -- The guard does act. If a watched node has a true GPUUnrecoverable that has held for the minimum age, its
  -- data is not stale, it is schedulable, the capacity floor is kept without it, and the guard is in
  -- enforce mode with the node in its scope, then one call of `decide` asks for the cordon of this node,
  -- or the cordons that it asks for and the recorded ones of the window together reach the configured
  -- number. The Node that is read does not carry the mark `too_young`.
  pub decide-IsDue :
      (recent : List Instant) (node : Node)
      → In node nodes
      → IsDue node
      → IsCordoned node (decide parse_time now cfg nodes recent)
        ⊎ (cfg.max_cordons_per_window
            ≤ℤ pos (
                cordon_count (decide parse_time now cfg nodes recent)
                + recent_count now cfg.rate_limit_window_seconds recent))
  unfolding decide
  decide-IsDue recent node m w =
      let total = cfg.max_cordons_per_window in
      let spent = recent_count now cfg.rate_limit_window_seconds recent in
      elim (decide_from-IsDue nodes (total -ℤ pos spent) node m w) [
        | inl done ↦ inl done
        | inr used ↦ inr (ground (arith, -ℤ_parts total (pos spent), used))
      ]
