-- ===== src/Guard/Policy.antt =====
-- guard/gpu_node_guard/policy.py: from the conditions on the nodes to one decision for each node.
-- Instants are microseconds. `parse_time` and the clock are arguments here as they are there.
pub mod Types
pub mod Messages
pub mod Trigger
pub mod Guardrails
pub mod Capacity
pub mod RateLimit
pub mod Acting
pub mod DryRun
use gpu_node_health.Base.{
  ℕ, suc, ◌+◌, String, Bool, true, false, not, ◌&&◌, ◌||◌, Option, none, some, List, [], ◌∷◌, ltb,
  ◌=s=◌, contains, if◌then◌else◌,
}
use gpu_node_health.Base.Int.{ℤ, pos, ◌-ℤ◌, ltb_ℤ, Instant, seconds}
use gpu_node_health.Base.Dict.{Dict, get, put}
use Types.{
  Condition, Node, Level, l1, l2, l3, level_rules, gpu_health_data_stale, Action, cordon, noop,
  Reason, healthy, already_cordoned, report_only, too_young, stale_data, observe_mode, out_of_scope,
  capacity_floor, rate_limit, cordoned, Decision, NodeState, PolicyConfig,
}
use Messages.{
  too_young_text, report_only_text, stale_text, already_cordoned_text, capacity_text,
  rate_limit_text, observe_text, out_of_scope_text, cordoned_text,
}

-- `x or ""`: a missing text counts as the empty one.
abbrev pub text_or_empty : Option String → String
text_or_empty none = ""
text_or_empty (some s) = s

-- The last entry of a type is the one that stays; entries with no type are left out.
unfoldable pub index_from : Dict Condition → List Condition → Dict Condition
index_from index [] = index
index_from index (c ∷ cs) =
    let ctype = text_or_empty c.type in
    index_from (if ctype =s= "" then index else put ctype c index) cs

unfoldable pub condition_index : Node → Dict Condition
unfolding index_from
condition_index node = index_from [] node.conditions

unfoldable pub is_true : Option Condition → Bool
is_true none = false
is_true (some c) = text_or_empty c.status =s= "True"

unfoldable pub schedulable : Node → Bool
schedulable node = not (elim node.unschedulable [ none ↦ false | some b ↦ b ])

unfoldable pub ready : Node → Bool
ready node = is_true (get "Ready" (condition_index node))

-- The inner loop of `trigger_level`: the first of a level's conditions that is true.
unfoldable pub first_true : Dict Condition → List String → Option Condition
first_true index [] = none
first_true index (ctype ∷ types) = elim (get ctype index) [
  | none ↦ first_true index types
  | some cond ↦ if is_true (some cond) then some cond else first_true index types
]

unfoldable pub in_cordon_levels : Option (Level × Condition) → Bool
in_cordon_levels none = false
in_cordon_levels (some (l1, cond)) = false
in_cordon_levels (some (l2, cond)) = true
in_cordon_levels (some (l3, cond)) = true

unfoldable pub is_cordon_level : Level → Bool
is_cordon_level l1 = false
is_cordon_level l2 = true
is_cordon_level l3 = true

-- The age test, with the time stamp parsed.
abbrev pub held_too_short : Instant → ℤ → Option Instant → Bool
held_too_short now min_age_seconds none = true
held_too_short now min_age_seconds (some since) = ltb_ℤ (now -ℤ since) (seconds min_age_seconds)

module _ (parse_time : Option String → Option Instant) (now : Instant) where
  unfoldable pub mark_age : ℤ → Condition → Condition
  mark_age min_age_seconds cond =
      if held_too_short now min_age_seconds (parse_time cond.last_transition_time)
      then record cond { too_young = true }
      else cond

  unfoldable pub scan_levels :
      ℤ → Dict Condition → List (Level × List String) → Option (Level × Condition)
  scan_levels min_age_seconds index [] = none
  scan_levels min_age_seconds index ((level, types) ∷ rules) = elim (first_true index types) [
    | none ↦ scan_levels min_age_seconds index rules
    | some cond ↦ some (level, mark_age min_age_seconds cond)
  ]

  unfoldable pub trigger_level : Node → ℤ → Option (Level × Condition)
  unfolding scan_levels
  trigger_level node min_age_seconds =
      scan_levels min_age_seconds (condition_index node) level_rules

  abbrev pub is_excluded : List String → Option String → Bool
  is_excluded exclude none = false
  is_excluded exclude (some name) = contains name exclude

  -- The three tests of the loop of `healthy_capacity`: each one that fails skips the node.
  unfoldable pub is_spare : ℤ → List String → Node → Bool
  is_spare min_age_seconds exclude node =
      if is_excluded exclude node.name
      then false
      else if not (ready node) || not (schedulable node)
      then false
      else not (in_cordon_levels (trigger_level node min_age_seconds))

  unfoldable pub healthy_capacity : List Node → ℤ → List String → ℕ
  healthy_capacity [] min_age_seconds exclude = 0
  healthy_capacity (node ∷ nodes) min_age_seconds exclude =
      (if is_spare min_age_seconds exclude node then 1 else 0)
      + healthy_capacity nodes min_age_seconds exclude

unfoldable pub node_states : List Node → List NodeState
node_states [] = []
node_states (node ∷ nodes) =
    record {
      node = text_or_empty node.name;
      unschedulable = if schedulable node then 0 else 1;
      ready = if ready node then 1 else 0;
    }
    ∷ node_states nodes

-- How many of the recorded cordons fall into the rate limit's window.
unfoldable pub recent_count : Instant → ℤ → List Instant → ℕ
recent_count now window [] = 0
recent_count now window (ts ∷ rest) =
    (if ltb_ℤ (now -ℤ ts) (seconds window) then 1 else 0) + recent_count now window rest

unfoldable pub initial_budget : Instant → PolicyConfig → List Instant → ℤ
unfolding recent_count
initial_budget now cfg recent_cordons =
    cfg.max_cordons_per_window
    -ℤ pos (recent_count now cfg.rate_limit_window_seconds recent_cordons)

abbrev pub is_scoped_out : List String → String → Bool
is_scoped_out [] name = false
is_scoped_out (n ∷ ns) name = not (contains name (n ∷ ns))

module _ (parse_time : Option String → Option Instant) (now : Instant) (cfg : PolicyConfig)
    (nodes : List Node) where
  -- The body of the loop of `decide` below the test for a level: the guardrails in their order. The
  -- result is the decision with the cordons that are left.
  unfoldable pub judge : Node → ℤ → Level → Condition → Decision × ℤ
  judge node budget level cond =
      let name = text_or_empty node.name in
      let ctype = text_or_empty cond.type in
      let cmsg = text_or_empty cond.message in
      let d : Action → Reason → String → Decision = λ action reason message. record {
        node = name;
        action = action;
        reason = reason;
        level = some level;
        condition = ctype;
        message = message;
      } in
      let remaining =
        healthy_capacity parse_time now nodes cfg.condition_min_age_seconds (name ∷ []) in
      if cond.too_young
      then (d noop too_young (too_young_text cfg ctype), budget)
      else if not (is_cordon_level level)
      then (d noop report_only (report_only_text level ctype cmsg), budget)
      else if is_true (get gpu_health_data_stale (condition_index node))
      then (d noop stale_data (stale_text ctype), budget)
      else if not (schedulable node)
      then (d noop already_cordoned (already_cordoned_text ctype), budget)
      else if ltb_ℤ (pos remaining) cfg.min_healthy_nodes
      then (d noop capacity_floor (capacity_text cfg name ctype cmsg remaining), budget)
      else if not (ltb_ℤ (pos 0) budget)
      then (d noop rate_limit (rate_limit_text cfg name ctype cmsg), budget)
      else if not (cfg.mode =s= "enforce")
      then (d noop observe_mode (observe_text name ctype cmsg), budget)
      else if is_scoped_out cfg.enforce_nodes name
      then (d noop out_of_scope (out_of_scope_text name ctype cmsg), budget)
      else (d cordon cordoned (cordoned_text name ctype cmsg), budget -ℤ pos 1)

  unfoldable pub decide_node : Node → ℤ → Decision × ℤ
  unfolding judge
  decide_node node budget = elim (trigger_level parse_time now node cfg.condition_min_age_seconds) [
    | none ↦ (
      record {
        node = text_or_empty node.name;
        action = noop;
        reason = healthy;
        level = none;
        condition = "";
        message = "no GPU health condition active";
      },
      budget,
    )
    | some (level, cond) ↦ judge node budget level cond
  ]

  unfoldable pub decide_from : ℤ → List Node → List Decision
  decide_from budget [] = []
  decide_from budget (node ∷ rest) =
      let (decision, budget') = decide_node node budget in decision ∷ decide_from budget' rest

  unfoldable pub decide : List Instant → List Decision
  unfolding decide_from initial_budget
  decide recent_cordons = decide_from (initial_budget now cfg recent_cordons) nodes
