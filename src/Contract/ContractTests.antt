-- ===== src/Contract/ContractTests.antt =====
-- The agent and the guard together on one node.
use gpu_node_health.Base.{some, inl, inr, map, ◌∷◌, ◌≡◌, refl, ◌<>◌, true}
use gpu_node_health.Base.Int.{pos}
use gpu_node_health.Base.Dict.{get}
use gpu_node_health.Agent.Signals.{no_dstate, no_exporter}
use gpu_node_health.Agent.Conditions.Infos.{unrecoverable}
use gpu_node_health.Agent.Conditions.{evaluate, hits, conditions, record_sample, drop_old}
use gpu_node_health.Agent.Conditions.Active.{active_of}
use gpu_node_health.Agent.Publisher.{condition_prefix, silent, publish, publish_each, publish_one}
use gpu_node_health.Agent.Samples.{evaluator, log_with, earlier}
use gpu_node_health.Base.Int.{◌-ℤ◌}
use gpu_node_health.Guard.Policy.{condition_index, is_true, decide_node}
use gpu_node_health.Guard.Policy.Types.{Node, noop, too_young}
use gpu_node_health.Guard.Samples.{holding, epoch, noon, fleet, policy, sick}
use gpu_node_health.Contract.{to_condition, report, Merged}
use gpu_node_health.Contract.EndToEnd.{is_true-report}
use gpu_node_health.Contract.Recorded.{shown, node_view-report}
use gpu_node_health.Recorder.NodeView.{node_view}
use gpu_node_health.Contract.Restart.{restart_delays_cordon}
use gpu_node_health.Contract.Decisions.{blind_agent_stops_cordon}

-- The Node with the condition of the kubelet and what the agent sent.
abbrev merged : Node
merged = record sick {
  conditions =
      holding "Ready"
      ∷ map to_condition (
          report evaluator (pos 1600000000) (log_with 5) no_dstate no_exporter earlier "10:00"
            silent);
}

merged-Merged :
    Merged
      (report evaluator (pos 1600000000) (log_with 5) no_dstate no_exporter earlier "10:00" silent)
      merged
unfolding evaluate conditions publish publish_each publish_one get
merged-Merged = record {
  present = (
    inr (inl refl),
    (
      inr (inr (inl refl)),
      (
        inr (inr (inr (inl refl))),
        (inr (inr (inr (inr (inl refl)))), (inr (inr (inr (inr (inr (inl refl))))), tt)),
      ),
    ),
  );
  unique = refl;
}

is_true-report_example :
    is_true (get (condition_prefix <> "GPUUnrecoverable") (condition_index merged))
    ≡ active_of "GPUUnrecoverable"
        (evaluate evaluator (pos 1600000000) (log_with 5) no_dstate no_exporter earlier).0
is_true-report_example =
    is_true-report evaluator (pos 1600000000) (log_with 5) no_dstate no_exporter earlier "10:00"
      silent merged "GPUUnrecoverable" refl merged-Merged

node_view-report_example :
    get ("api_" <> "unrec") (node_view (some merged))
    ≡ some (
        shown (
          active_of "GPUUnrecoverable"
            (evaluate evaluator (pos 1600000000) (log_with 5) no_dstate no_exporter earlier).0))
node_view-report_example =
    node_view-report evaluator (pos 1600000000) (log_with 5) no_dstate no_exporter earlier "10:00"
      silent merged "unrec" "GPUUnrecoverable" (inl refl) merged-Merged

blind_agent_stops_cordon_example :
    (decide_node epoch noon policy fleet merged (pos 1)).0.action ≡ noop
blind_agent_stops_cordon_example =
    blind_agent_stops_cordon evaluator (pos 1600000000) (log_with 5) no_dstate no_exporter earlier
      "10:00" silent merged epoch noon merged-Merged policy fleet (pos 1) refl

five_resets_are_fatal :
    active_of "GPUUnrecoverable"
      (evaluate evaluator (pos 1600000000) (log_with 5) no_dstate no_exporter earlier).0
    ≡ true
unfolding evaluate conditions unrecoverable hits record_sample drop_old get ◌-ℤ◌
five_resets_are_fatal = refl

restart_delays_cordon_example :
    ((decide_node epoch (pos 0) policy fleet merged (pos 1)).0.action ≡ noop)
    × ((decide_node epoch (pos 0) policy fleet merged (pos 1)).0.reason ≡ too_young)
unfolding ◌-ℤ◌
restart_delays_cordon_example =
    restart_delays_cordon evaluator (pos 1600000000) (log_with 5) no_dstate no_exporter earlier
      "10:00" merged merged-Merged epoch (pos 0) policy fleet (pos 1) (pos 0) five_resets_are_fatal
      refl refl
