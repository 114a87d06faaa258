-- ===== src/Guard/Tests.antt =====
-- Runs of the guard on small fleets, and its theorems at them.
use gpu_node_health.Base.{◌+◌, ◌≡◌, refl, ◌⊎◌, inl, false, none, some, [], ◌∷◌, In, arith}
use gpu_node_health.Base.Int.{pos, ◌≤ℤ◌}
use gpu_node_health.Base.Dict.{get}
use gpu_node_health.Guard.Policy.Types.{
  Node, cordon, noop, too_young, Decision, gpu_unrecoverable, gpu_health_data_stale,
  gpu_engine_timeout, Condition,
}
use gpu_node_health.Guard.Policy.{
  text_or_empty, healthy_capacity, recent_count, decide_node, decide, condition_index, is_true,
}
use gpu_node_health.Guard.Policy.Guardrails.{Warranted, decide-Warranted}
use gpu_node_health.Guard.Policy.Acting.{IsDue, IsCordoned, decide-IsDue}
use gpu_node_health.Guard.Policy.Trigger.{Held}
use gpu_node_health.Guard.Policy.Capacity.{
  NamesIdentify, Distinct→NamesIdentify, cordon_all, floor-cordon_all,
}
use gpu_node_health.Guard.Policy.RateLimit.{cordon_count, cordon_count-decide}
use gpu_node_health.Guard.Policy.DryRun.{observing, as_observed, dry_run_complete, young_masks}
use gpu_node_health.Guard.Samples.{deciding, epoch, noon, holding, node, sick, fleet, policy}

abbrev first : Decision
first = (decide_node epoch noon policy fleet sick (pos 1)).0

first_is_cordon : first.action ≡ cordon
unfolding deciding
first_is_cordon = refl

first_is_made : In first (decide epoch noon policy fleet [])
unfolding deciding
first_is_made = inl refl

fleet_distinct : NamesIdentify fleet
fleet_distinct = Distinct→NamesIdentify fleet (refl, (refl, (refl, tt)))

decide-Warranted_example :
    (n : Node) × In n fleet
    × (text_or_empty n.name ≡ first.node)
    × Warranted epoch noon policy fleet n
decide-Warranted_example =
    decide-Warranted epoch noon policy fleet [] first first_is_made first_is_cordon

enough : pos 2 ≤ℤ pos (healthy_capacity epoch noon fleet (pos 120) ("n1" ∷ []))
unfolding deciding
enough = omega arith

fresh_data : is_true (get gpu_health_data_stale (condition_index sick)) ≡ false
unfolding deciding
fresh_data = refl

sick_held : Held epoch noon (pos 120) sick gpu_unrecoverable
unfolding deciding
sick_held = record {
  cond = holding gpu_unrecoverable;
  present = refl;
  holds = refl;
  since = pos 0;
  parsed = refl;
  old_enough = omega arith;
}

sick_IsDue : IsDue epoch noon policy fleet sick
unfolding deciding sick_held
sick_IsDue = record {
  held = sick_held;
  unmarked = refl;
  fresh_data = fresh_data;
  in_service = refl;
  floor = enough;
  enforcing = refl;
  in_scope = inl refl;
}

decide-IsDue_example :
    IsCordoned epoch noon policy fleet sick (decide epoch noon policy fleet [])
    ⊎ (policy.max_cordons_per_window
        ≤ℤ pos (
            cordon_count (decide epoch noon policy fleet [])
            + recent_count noon policy.rate_limit_window_seconds []))
decide-IsDue_example = decide-IsDue epoch noon policy fleet [] sick (inl refl) sick_IsDue

floor-cordon_all_example :
    pos 2
    ≤ℤ pos (
        healthy_capacity epoch noon
          (cordon_all (decide epoch noon policy fleet []) fleet)
          (pos 120)
          [])
floor-cordon_all_example =
    floor-cordon_all epoch noon policy fleet [] fleet_distinct first first_is_made first_is_cordon

cordon_count-decide_example :
    (cordon_count (decide epoch noon policy fleet (pos 0 ∷ [])) ≡ 0)
    ⊎ (pos (
          cordon_count (decide epoch noon policy fleet (pos 0 ∷ []))
          + recent_count noon (pos 3600) (pos 0 ∷ []))
        ≤ℤ pos 1)
cordon_count-decide_example = cordon_count-decide epoch noon policy fleet (pos 0 ∷ [])

dry_run_complete_example :
    (decide_node epoch noon (observing policy) fleet sick (pos 1)).0.reason
    ≡ as_observed (decide_node epoch noon policy fleet sick (pos 1)).0.reason
dry_run_complete_example = dry_run_complete epoch noon policy fleet sick (pos 1) refl

-- An engine timeout that has held for long, with an unrecoverable GPU without a usable time stamp.
abbrev undated : Condition
undated = record (holding gpu_unrecoverable) { last_transition_time = none }

abbrev flapping : Node
flapping = node "n1" (holding gpu_engine_timeout ∷ undated ∷ [])

undated_present : get gpu_unrecoverable (condition_index flapping) ≡ some undated
unfolding deciding
undated_present = refl

young_masks_example :
    ((decide_node epoch noon policy (flapping ∷ fleet) flapping (pos 1)).0.action ≡ noop)
    × ((decide_node epoch noon policy (flapping ∷ fleet) flapping (pos 1)).0.reason ≡ too_young)
unfolding is_true
young_masks_example =
    young_masks epoch noon policy (flapping ∷ fleet) flapping (pos 1) undated undated_present refl
      refl
