-- ===== src/Guard/Loop/Nodes.antt =====
-- `_run_nodes` of guard/gpu_node_guard/main.py: the cordons that it performs are recorded, and the
-- history is pruned.
use gpu_node_health.Base.{ℕ, ◌+◌, String, ◌≡◌, refl, ap, Option, List, [], ◌∷◌, ◌++◌, arith}
use gpu_node_health.Base.Int.{Instant}
use gpu_node_health.Guard.Policy
use gpu_node_health.Guard.Policy.Types.{Node}
use gpu_node_health.Guard.World.{
  list_nodes, Answer, ok, k8s_error, Cluster, GuardConfig, World, and_then,
}
use gpu_node_health.Guard.Loop.{prune, NodesRun, nodes_with}
use gpu_node_health.Guard.Loop.Effects.{
  replicate, performed, accepted_all, Cordons, Cordons-request,
}
use gpu_node_health.Guard.Loop.CarryOut.{carry_out_all-Carries}

module _ (parse_time : Option String → Option Instant) (stamp : Instant → String)
    (cfg : GuardConfig) (cluster : Cluster) (now : Instant) where
  -- The cordons that a pass over the nodes performs from a state with the history `recent`.
  abbrev pub cordons_of : Answer (List Node) → List Instant → ℕ
  cordons_of k8s_error recent = 0
  cordons_of (ok nodes) recent =
      accepted_all cluster (Policy.decide parse_time now cfg.policy nodes recent)

  -- After a pass over nodes that could be listed: the result, the pruned history, the requests.
  pub record Passed (nodes : List Node) (w : World) (r : Answer NodesRun × World) : Type 0 where
    pub run : NodesRun
    pub returned : r.0 ≡ ok run
    pub cordoned : run.cordoned ≡ cordons_of (ok nodes) w.recent_cordons
    pub watched : run.nodes ≡ nodes
    pub history :
        r.1.recent_cordons
        ≡ prune now cfg.policy.rate_limit_window_seconds
            (w.recent_cordons ++ replicate run.cordoned now)
    pub sent : performed cluster r.1.calls ≡ performed cluster w.calls + run.cordoned
    pub total : r.1.state.cordons_total ≡ w.state.cordons_total
    pub errors : r.1.state.loop_errors ≡ w.state.loop_errors

  pub nodes_with-Passed :
      (nodes : List Node) (w : World)
      → Passed nodes w (nodes_with parse_time stamp cfg cluster now (ok nodes) w)
  unfolding nodes_with
  nodes_with-Passed nodes w =
      let v : World = record w { calls = w.calls ++ list_nodes ∷ [] } in
      let decs = Policy.decide parse_time now cfg.policy nodes w.recent_cordons in
      let k = accepted_all cluster decs in
      let (answered, effect) = carry_out_all-Carries parse_time stamp cfg cluster now decs v in
      let first =
        Cordons-request cluster now list_nodes {w = w} {w' = v} refl refl refl refl refl in
      rw (answered, and_then)
        (record {
          run = record {
            nodes = nodes;
            decisions = decs;
            capacity =
                Policy.healthy_capacity parse_time now nodes cfg.policy.condition_min_age_seconds
                  [];
            cordoned = k;
          };
          returned = refl;
          cordoned = refl;
          watched = refl;
          history = ap (prune now cfg.policy.rate_limit_window_seconds) effect.history;
          sent = omega (arith, effect.sent, first.sent);
          total = effect.total;
          errors = effect.errors;
        })

  pub nodes_with-error :
      (w : World)
      → let r = nodes_with parse_time stamp cfg cluster now k8s_error w in
        (r.0 ≡ k8s_error) × Cordons cluster now 0 w r.1
  unfolding nodes_with
  nodes_with-error w = (refl, Cordons-request cluster now list_nodes refl refl refl refl refl)
