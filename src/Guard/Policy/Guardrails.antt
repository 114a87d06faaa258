-- ===== src/Guard/Policy/Guardrails.antt =====
-- The guardrails of guard/gpu_node_guard/policy.py, `decide`: what has to hold for a cordon.
use gpu_node_health.Base.{
  String, ◌≡◌, refl, ◌⊎◌, inl, inr, true, false, Option, some, List, [], ◌∷◌, arith, eq_iff, In,
  contains→In, In→contains, Option-cases,
}
use gpu_node_health.Base.Int.{ℤ, pos, ◌-ℤ◌, ◌≤ℤ◌, ◌<ℤ◌, ltb_ℤ→ge, lt→ltb_ℤ, le→not_ltb_ℤ, Instant}
use gpu_node_health.Base.Dict.{get}
use gpu_node_health.Guard.Policy.Types.{
  Condition, Node, Level, cordon, Decision, PolicyConfig, gpu_health_data_stale,
}
use gpu_node_health.Guard.Policy.Trigger.{Held, cordon_types, trigger_level-Held}
use gpu_node_health.Guard.Policy.{
  text_or_empty, condition_index, is_true, schedulable, is_cordon_level, trigger_level,
  healthy_capacity, is_scoped_out, judge, decide_node, decide_from, decide,
}

in_scope_lem :
    (names : List String) (name : String)
    → is_scoped_out names name ≡ false
    → (names ≡ []) ⊎ In name names
in_scope_lem [] name e = inl refl
in_scope_lem (n ∷ ns) name e = inr (contains→In name (n ∷ ns) (ground arith))

not_scoped_out :
    (names : List String) (name : String)
    → (names ≡ []) ⊎ In name names
    → is_scoped_out names name ≡ false
not_scoped_out [] name h = refl
not_scoped_out (n ∷ ns) name (inl e) = cc
not_scoped_out (n ∷ ns) name (inr m) = rw (In→contains name (n ∷ ns) m)

module _ (parse_time : Option String → Option Instant) (now : Instant) (cfg : PolicyConfig)
    (nodes : List Node) where
  -- Every guardrail, stated of the node.
  pub record Warranted (node : Node) : Type 0 where
    pub kind : String
    pub may_cordon : In kind cordon_types
    pub held : Held parse_time now cfg.condition_min_age_seconds node kind
    pub fresh_data : is_true (get gpu_health_data_stale (condition_index node)) ≡ false
    pub in_service : schedulable node ≡ true
    pub floor :
        cfg.min_healthy_nodes
        ≤ℤ pos (
            healthy_capacity parse_time now nodes cfg.condition_min_age_seconds
              (text_or_empty node.name ∷ []))
    pub enforcing : cfg.mode ≡ "enforce"
    pub in_scope : (cfg.enforce_nodes ≡ []) ⊎ In (text_or_empty node.name) cfg.enforce_nodes

  judge-Warranted :
      (node : Node) (budget : ℤ) (level : Level) (cond : Condition)
      → trigger_level parse_time now node cfg.condition_min_age_seconds ≡ some (level, cond)
      → (judge parse_time now cfg nodes node budget level cond).0.action ≡ cordon
      → Warranted node
  unfolding judge
  judge-Warranted node budget level cond e c =
      let (t, m, h) =
        trigger_level-Held parse_time now cfg.condition_min_age_seconds node level cond e
          (ground arith) (ground arith) in
      record {
        kind = t;
        may_cordon = m;
        held = h;
        fresh_data = ground arith;
        in_service = ground arith;
        floor =
            ltb_ℤ→ge
              (pos (
                healthy_capacity parse_time now nodes cfg.condition_min_age_seconds
                  (text_or_empty node.name ∷ [])))
              cfg.min_healthy_nodes (ground arith);
        enforcing = (eq_iff cfg.mode "enforce").0 (ground arith);
        in_scope = in_scope_lem cfg.enforce_nodes (text_or_empty node.name) (ground arith);
      }

  decide_node-Warranted :
      (node : Node) (budget : ℤ)
      → (decide_node parse_time now cfg nodes node budget).0.action ≡ cordon
      → Warranted node
  unfolding decide_node
  decide_node-Warranted node budget c =
      elim (Option-cases (trigger_level parse_time now node cfg.condition_min_age_seconds)) [
        | inl e ↦ absurd (ground arith)
        | inr (trigger, e) ↦ judge-Warranted node budget trigger.0 trigger.1 e (ground arith)
      ]

  pub node-decide_node :
      (node : Node) (budget : ℤ)
      → (decide_node parse_time now cfg nodes node budget).0.node ≡ text_or_empty node.name
  unfolding decide_node
  node-decide_node node budget = ground arith

  decide_from-Warranted :
      (rest : List Node) (budget : ℤ) (d : Decision)
      → In d (decide_from parse_time now cfg nodes budget rest)
      → d.action ≡ cordon
      → (node : Node) × In node rest × (text_or_empty node.name ≡ d.node) × Warranted node
  unfolding decide_from
  decide_from-Warranted [] budget d m c = elim m [ ]
  decide_from-Warranted (node ∷ rest) budget d (inl e) c =
      (node, inl refl, cc (node-decide_node node budget), decide_node-Warranted node budget (cc))
  decide_from-Warranted (node ∷ rest) budget d (inr m) c =
      let (n, i, e, w) =
        decide_from-Warranted rest (decide_node parse_time now cfg nodes node budget).1 d m c in
      (n, inr i, e, w)

  -- A node is cordoned only if every guardrail allows it: each cordon in the answer of `decide` is
  -- about a watched node on which a condition that may cordon has held for the minimum age, whose
  -- data is not stale, which is schedulable, without which the capacity floor is kept, and only in
  -- enforce mode and within the scope.
  pub decide-Warranted :
      (recent_cordons : List Instant) (d : Decision)
      → In d (decide parse_time now cfg nodes recent_cordons)
      → d.action ≡ cordon
      → (node : Node) × In node nodes × (text_or_empty node.name ≡ d.node) × Warranted node
  unfolding decide
  decide-Warranted recent_cordons d = decide_from-Warranted nodes _ d

  -- Where the trigger is of a level that cordons and old enough, and every guardrail passes with a
  -- cordon left in the budget, the decision is the cordon, and it takes one from the budget.
  pub decide_node-cordon :
      (node : Node) (budget : ℤ) (level : Level) (cond : Condition)
      → trigger_level parse_time now node cfg.condition_min_age_seconds ≡ some (level, cond)
      → is_cordon_level level ≡ true
      → cond.too_young ≡ false
      → is_true (get gpu_health_data_stale (condition_index node)) ≡ false
      → schedulable node ≡ true
      → cfg.min_healthy_nodes
        ≤ℤ pos (
            healthy_capacity parse_time now nodes cfg.condition_min_age_seconds
              (text_or_empty node.name ∷ []))
      → pos 0 <ℤ budget
      → cfg.mode ≡ "enforce"
      → (cfg.enforce_nodes ≡ []) ⊎ In (text_or_empty node.name) cfg.enforce_nodes
      → ((decide_node parse_time now cfg nodes node budget).0.action ≡ cordon)
        × ((decide_node parse_time now cfg nodes node budget).1 ≡ budget -ℤ pos 1)
  unfolding decide_node
  decide_node-cordon node budget level cond e l y s o f b m i =
      let floor_kept =
        le→not_ltb_ℤ
          (pos (
            healthy_capacity parse_time now nodes cfg.condition_min_age_seconds
              (text_or_empty node.name ∷ [])))
          cfg.min_healthy_nodes f in
      let left = lt→ltb_ℤ (pos 0) budget b in
      let enforcing = (eq_iff cfg.mode "enforce").1 m in
      let scoped = not_scoped_out cfg.enforce_nodes (text_or_empty node.name) i in
      (ground arith, ground arith)
