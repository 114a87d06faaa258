-- ===== src/Guard/Loop.antt =====
-- guard/gpu_node_guard/main.py: the methods of `Guard`.
-- `parse_time` and `stamp` (`rfc3339_micro`) are arguments.
mod Effects
mod CarryOut
pub mod Refusals
mod Counting
pub mod Accounting
pub mod History
pub mod Window
pub mod Leader
pub mod Exclusion
pub mod Observe
pub mod Nodes
mod Exporters
use gpu_node_health.Base.{
  ℕ, zero, suc, ◌+◌, String, ◌<>◌, Bool, true, false, not, ◌&&◌, ◌||◌, Option, none, some, List, [],
  ◌∷◌, ◌++◌, ◌=s=◌, take_chars, length, if◌then◌else◌,
}
use gpu_node_health.Base.Int.{ℤ, ◌-ℤ◌, ltb_ℤ, Instant, seconds}
use gpu_node_health.Guard.Policy
use gpu_node_health.Guard.Policy.Types.{
  Node, Action, cordon, noop, Reason, capacity_floor, rate_limit, stale_data, observe_mode,
  Decision, PolicyConfig,
}
use gpu_node_health.Guard.Supervisor
use gpu_node_health.Guard.Supervisor.{Pod, PodAction, delete, PodDecision}
use gpu_node_health.Guard.Lease.{acquire_or_renew}
use gpu_node_health.Guard.World.{
  Lease, Kind, node_kind, pod_kind, Event, Call, get_lease, list_nodes, list_pods, create_lease,
  update_lease, cordon_call, event_call, delete_call, Answer, ok, k8s_error, Cluster, GuardConfig,
  GuardState, World, M, and_then, ◌>>=◌, ◌>>◌, pure, modify, send, request,
}

-- `_EVENT_REASON`, whose keys are `_NOTEWORTHY`.
unfoldable pub event_reason : Reason → Option String
event_reason capacity_floor = some "GPUCordonRefusedCapacityFloor"
event_reason rate_limit = some "GPUCordonRefusedRateLimit"
event_reason stale_data = some "GPUCordonRefusedStaleData"
event_reason observe_mode = some "GPUCordonWouldHave"
event_reason _ = none

-- `t >= cutoff`
abbrev pub is_kept : Instant → ℤ → Instant → Bool
is_kept now window t = not (ltb_ℤ t (now -ℤ seconds window))

unfoldable pub prune : Instant → ℤ → List Instant → List Instant
prune now window [] = []
prune now window (t ∷ ts) =
    let kept = prune now window ts in if is_kept now window t then t ∷ kept else kept

-- What `_run_nodes` returns.
pub record NodesRun : Type 0 where
  pub nodes : List Node
  pub decisions : List Decision
  pub capacity : ℕ
  pub cordoned : ℕ

module _ (parse_time : Option String → Option Instant) (stamp : Instant → String)
    (cfg : GuardConfig) (cluster : Cluster) (now : Instant) where
  -- An Event on a Node goes to the namespace `default`, and one on a Pod to the pod's namespace.
  abbrev pub event_of : Kind → String → String → String → Event
  event_of kind name reason message = record {
    kind = kind;
    namespace = elim kind [
      | node_kind ↦ "default"
      | pod_kind ↦ if cfg.exporter_namespace =s= "" then "default" else cfg.exporter_namespace
    ];
    name = name;
    reason = reason;
    message = take_chars 1024 message;
  }

  -- `_event` with `emit_event`: an Event that cannot be written is counted.
  unfoldable pub emit : Kind → String → String → String → M (Unit {0})
  emit kind name reason message = do
    let event = event_of kind name reason message
    written ← request (event_call event) (cluster.event_ok event)
    if written
        then pure tt
        else modify
            λ w. record w { state = record w.state { event_errors = w.state.event_errors + 1 } }

  -- What `_run_nodes` does with one cordon: how many nodes were cordoned, one or none.
  unfoldable pub try_cordon : Decision → M ℕ
  try_cordon dec = do
    accepted ← request (cordon_call dec.node) (cluster.cordon_ok dec.node)
    if accepted
        then (do
          modify (λ w. record w { recent_cordons = w.recent_cordons ++ now ∷ [] })
          emit node_kind dec.node "GPUNodeCordoned" dec.message
          pure 1)
        else (do
          emit node_kind dec.node "GPUCordonFailed" (
              "wanted to cordon "
              <> (dec.node
                  <> (" but the patch failed: " <> cluster.error_text (cordon_call dec.node))))
          pure 0)

  -- What it does with a refusal.
  unfoldable pub note : Option String → Decision → M ℕ
  note none dec = pure 0
  note (some reason) dec = do emit node_kind dec.node reason dec.message; pure 0

  -- The body of the loop of `_run_nodes`.
  abbrev pub carry_out_as : Action → Decision → M ℕ
  carry_out_as cordon dec = try_cordon dec
  carry_out_as noop dec = note (event_reason dec.reason) dec

  unfoldable pub carry_out : Decision → M ℕ
  carry_out dec = carry_out_as dec.action dec

  unfoldable pub carry_out_all : List Decision → M ℕ
  carry_out_all [] = pure 0
  carry_out_all (dec ∷ decs) = do n ← carry_out dec; m ← carry_out_all decs; pure (n + m)

  -- `_run_nodes`, with the answer to `list_nodes`.
  unfoldable pub nodes_with : Answer (List Node) → M NodesRun
  nodes_with answer = do
    nodes ← send list_nodes answer
    decisions ← λ w. (ok (Policy.decide parse_time now cfg.policy nodes w.recent_cordons), w)
    let capacity =
        Policy.healthy_capacity parse_time now nodes cfg.policy.condition_min_age_seconds []
    cordoned ← carry_out_all decisions
    modify λ w. record w {
      recent_cordons = prune now cfg.policy.rate_limit_window_seconds w.recent_cordons;
    }
    pure (record { nodes = nodes; decisions = decisions; capacity = capacity; cordoned = cordoned })

  unfoldable pub run_nodes : M NodesRun
  run_nodes = nodes_with cluster.nodes

  unfoldable pub try_delete : PodDecision → M (Unit {0})
  try_delete dec = do
    accepted ← request (delete_call dec.pod) (cluster.delete_ok dec.pod)
    if accepted then emit pod_kind dec.pod "ExporterPodDeleted" dec.message else pure tt

  -- The body of the loop of `_run_exporters`.
  abbrev pub carry_out_pod_as : PodAction → PodDecision → M (Unit {0})
  carry_out_pod_as delete dec = try_delete dec
  carry_out_pod_as Supervisor.noop dec = pure tt

  unfoldable pub carry_out_pod : PodDecision → M (Unit {0})
  carry_out_pod dec = carry_out_pod_as dec.action dec

  unfoldable pub carry_out_pods : List PodDecision → M (Unit {0})
  carry_out_pods [] = pure tt
  carry_out_pods (dec ∷ decs) = do carry_out_pod dec; carry_out_pods decs

  -- `_run_exporters`, with the answer to `list_pods`.
  unfoldable pub exporters_with : Answer (List Pod) → M (List PodDecision)
  exporters_with answer = do
    pods ← send list_pods answer
    decisions ← λ w.
        let (decisions, supervisor) =
          Supervisor.evaluate cfg.supervision cluster.scrape now w.supervisor pods in
        (ok decisions, record w { supervisor = supervisor })
    carry_out_pods decisions
    pure decisions

  unfoldable pub run_exporters : M (List PodDecision)
  run_exporters = exporters_with cluster.pods

  -- The update of `_state` at the end of `loop_once`.
  abbrev pub publish : NodesRun → List PodDecision → World → World
  publish run exporter_decisions w = record w {
    state = record w.state {
      is_leader = true;
      last_loop = now;
      nodes_watched = length run.nodes;
      healthy_capacity = run.capacity;
      decisions = run.decisions;
      exporter_decisions = exporter_decisions;
      node_states = Policy.node_states run.nodes;
      cordons_total = w.state.cordons_total + run.cordoned;
    };
  }

  -- `loop_once` from the answer of `acquire_or_renew` on.
  abbrev pub with_lead : Bool → M (Unit {0})
  with_lead true = do
    run ← run_nodes
    exporter_decisions ← run_exporters
    modify (publish run exporter_decisions)
  with_lead false =
      modify λ w. record w { state = record w.state { is_leader = false; last_loop = now } }

  unfoldable pub loop_once : M (Unit {0})
  loop_once = do leads ← acquire_or_renew parse_time stamp cfg cluster now; with_lead leads

  -- The `except` of `run_forever`: an exception ends the pass and is counted.
  abbrev pub count_error : Answer (Unit {0}) → World → World
  count_error (ok _) w = w
  count_error k8s_error w = record w {
    state = record w.state { loop_errors = w.state.loop_errors + 1 };
  }

  -- One round of `run_forever`.
  unfoldable pub round : World → World
  round w = let (r, w') = loop_once w in count_error r w'
