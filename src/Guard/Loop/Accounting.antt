-- ===== src/Guard/Loop/Accounting.antt =====
-- What one round of guard/gpu_node_guard/main.py, `run_forever`, does to the cordon history and to the
-- counter `cordons_total`.
use gpu_node_health.Base.{
  ℕ, ◌+◌, String, ◌≡◌, refl, sym, ap, subst, ◌∙◌, true, Option, none, some, List, [], ◌∷◌, ◌++◌,
  arith,
}
use mathlib.Core.List.{append-nil}
use gpu_node_health.Base.Int.{Instant}
use gpu_node_health.Guard.Policy.Types.{Node}
use gpu_node_health.Guard.Supervisor.{Pod}
use gpu_node_health.Guard.World.{
  Lease, Call, get_lease, Answer, ok, k8s_error, Cluster, GuardConfig, World, and_then,
}
use gpu_node_health.Guard.Loop.{
  prune, nodes_with, run_nodes, run_exporters, loop_once, count_error, round, with_lead,
}
use gpu_node_health.Guard.Loop.Effects.{replicate, performed, performed-append}
use gpu_node_health.Guard.Loop.Nodes.{cordons_of, Passed, nodes_with-Passed}
use gpu_node_health.Guard.Loop.Exporters.{exporter_result, exporters_with-Cordons}
use gpu_node_health.Guard.Loop.Leader.{wins, lease_calls, acquire_or_renew_lem}

module _ (parse_time : Option String → Option Instant) (stamp : Instant → String)
    (cfg : GuardConfig) (cluster : Cluster) (now : Instant) where
  abbrev pub lease_sends : List Call
  lease_sends = lease_calls parse_time stamp cfg cluster now cluster.lease

  performed-lease_calls :
      (answer : Answer (Option Lease))
      → performed cluster (lease_calls parse_time stamp cfg cluster now answer) ≡ 0
  unfolding performed
  performed-lease_calls k8s_error = refl
  performed-lease_calls (ok none) = refl
  performed-lease_calls (ok (some lease)) = ground arith

  -- The state after the lease is won.
  abbrev pub led : World → World
  led w = record w { leading = true; calls = (w.calls ++ get_lease ∷ []) ++ lease_sends }

  pub performed-led : (w : World) → performed cluster (led w).calls ≡ performed cluster w.calls
  unfolding performed
  performed-led w =
      performed-append cluster (w.calls ++ get_lease ∷ []) lease_sends
      ∙ omega (
        arith,
        performed-append cluster w.calls (get_lease ∷ []),
        performed-lease_calls cluster.lease,
      )

  pub round-led :
      (w : World)
      → wins parse_time stamp cfg cluster now cluster.lease ≡ true
      → round parse_time stamp cfg cluster now w ≡ (
          let r = with_lead parse_time stamp cfg cluster now true (led w) in
          count_error parse_time stamp cfg cluster now r.0 r.1)
  unfolding round loop_once
  round-led w won = rw (acquire_or_renew_lem, won)

  -- What a round leaves: `n` cordons were performed and recorded, `counted` of them were counted,
  -- and `failed` errors were added.
  pub record Balance (n counted failed : ℕ) (w w' : World) : Type 0 where
    pub history :
        w'.recent_cordons
        ≡ prune now cfg.policy.rate_limit_window_seconds (w.recent_cordons ++ replicate n now)
    pub sent : performed cluster w'.calls ≡ performed cluster w.calls + n
    pub total : w'.state.cordons_total ≡ w.state.cordons_total + counted
    pub errors : w'.state.loop_errors ≡ w.state.loop_errors + failed

  Passed-at :
      (nodes : List Node) (w : World)
      → cluster.nodes ≡ ok nodes
      → Passed parse_time stamp cfg cluster now nodes w
          (run_nodes parse_time stamp cfg cluster now w)
  unfolding run_nodes
  Passed-at nodes w e =
      subst
        (λ a.
          Passed parse_time stamp cfg cluster now nodes w
            (nodes_with parse_time stamp cfg cluster now a w))
        (sym e) (nodes_with-Passed parse_time stamp cfg cluster now nodes w)

  -- The state before the update of `_state`, or before the error.
  both_passes :
      (w : World) (nodes : List Node)
      → cluster.nodes ≡ ok nodes
      → let v = (run_nodes parse_time stamp cfg cluster now (led w)).1 in
        Balance
          (cordons_of parse_time stamp cfg cluster now (ok nodes) w.recent_cordons)
          0
          0
          w
          (run_exporters parse_time stamp cfg cluster now v).1
  unfolding run_exporters
  both_passes w nodes en =
      let p = Passed-at nodes (led w) en in
      let v = (run_nodes parse_time stamp cfg cluster now (led w)).1 in
      let x = (exporters_with-Cordons parse_time stamp cfg cluster now cluster.pods v).1 in
      record {
        history =
            x.history
            ∙ append-nil v.recent_cordons
            ∙ p.history
            ∙ ap
                (λ k.
                  prune now cfg.policy.rate_limit_window_seconds
                    (w.recent_cordons ++ replicate k now))
                p.cordoned;
        sent = omega (arith, x.sent, p.sent, p.cordoned, performed-led w);
        total = omega (arith, x.total, p.total);
        errors = omega (arith, x.errors, p.errors);
      }

  -- In a round that leads and can list the nodes and the pods, every cordon that the API server
  -- accepted is in the history, which is then pruned, and is counted in `cordons_total`.
  pub round-Balance :
      (w : World) (nodes : List Node) (pods : List Pod)
      → wins parse_time stamp cfg cluster now cluster.lease ≡ true
      → cluster.nodes ≡ ok nodes
      → cluster.pods ≡ ok pods
      → let n = cordons_of parse_time stamp cfg cluster now (ok nodes) w.recent_cordons in
        Balance n n 0 w (round parse_time stamp cfg cluster now w)
  unfolding run_exporters
  round-Balance w nodes pods won en ep =
      let p = Passed-at nodes (led w) en in
      let v = (run_nodes parse_time stamp cfg cluster now (led w)).1 in
      let b = both_passes w nodes en in
      let answer =
        (exporters_with-Cordons parse_time stamp cfg cluster now cluster.pods v).0
        ∙ ap (λ a. exporter_result parse_time stamp cfg cluster now a v) ep in
      rw (round-led w won, p.returned, and_then, answer)
        (record {
          history = b.history;
          sent = b.sent;
          total = omega (arith, b.total, p.cordoned);
          errors = b.errors;
        })

  -- If the pods cannot be listed, the cordons of the round are performed and recorded all the same,
  -- and none of them is ever counted: `cordons_total` stays as it was.
  pub round_uncounted :
      (w : World) (nodes : List Node)
      → wins parse_time stamp cfg cluster now cluster.lease ≡ true
      → cluster.nodes ≡ ok nodes
      → cluster.pods ≡ k8s_error
      → let n = cordons_of parse_time stamp cfg cluster now (ok nodes) w.recent_cordons in
        Balance n 0 1 w (round parse_time stamp cfg cluster now w)
  unfolding run_exporters
  round_uncounted w nodes won en ep =
      let p = Passed-at nodes (led w) en in
      let v = (run_nodes parse_time stamp cfg cluster now (led w)).1 in
      let b = both_passes w nodes en in
      let answer =
        (exporters_with-Cordons parse_time stamp cfg cluster now cluster.pods v).0
        ∙ ap (λ a. exporter_result parse_time stamp cfg cluster now a v) ep in
      rw (round-led w won, p.returned, and_then, answer)
        (record {
          history = b.history;
          sent = b.sent;
          total = b.total;
          errors = omega (arith, b.errors);
        })
