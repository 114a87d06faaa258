-- ===== src/Guard/Loop/History.antt =====
-- What one round of guard/gpu_node_guard/main.py, `run_forever`, performs and records, whatever the
-- API server answers.
use gpu_node_health.Base.{
  ℕ, ◌+◌, String, ◌≡◌, refl, sym, ap, subst, ◌∙◌, ◌⊎◌, inl, inr, true, Option, List, ◌++◌, arith,
  if◌then◌else◌, Bool-cases,
}
use gpu_node_health.Base.Int.{Instant}
use mathlib.Core.List.{append-nil}
use gpu_node_health.Guard.Policy.Types.{Node}
use gpu_node_health.Guard.Supervisor.{Pod}
use gpu_node_health.Guard.World.{Answer, ok, k8s_error, Cluster, GuardConfig, World, and_then}
use gpu_node_health.Guard.Loop.{prune, nodes_with, run_nodes, round}
use gpu_node_health.Guard.Loop.Effects.{replicate, performed, Cordons}
use gpu_node_health.Guard.Loop.Nodes.{cordons_of, nodes_with-error}
use gpu_node_health.Guard.Loop.Leader.{wins, round_stands_down}
use gpu_node_health.Guard.Loop.Accounting.{
  led, round-led, performed-led, round-Balance, round_uncounted,
}

-- One round: the answers that the guard gets, and its clock.
pub record Pass : Type 0 where
  pub cluster : Cluster
  pub now : Instant

module _ (parse_time : Option String → Option Instant) (stamp : Instant → String)
    (cfg : GuardConfig) where
  -- The cordons that a round performs.
  abbrev pub pass_cordons : World → Pass → ℕ
  pass_cordons w p =
      if wins parse_time stamp cfg p.cluster p.now p.cluster.lease
      then cordons_of parse_time stamp cfg p.cluster p.now p.cluster.nodes w.recent_cordons
      else 0

  -- What a round does to the history, whatever the answers are.
  abbrev pub History : World → Pass → World → Type 0
  History w p w' =
      (w'.recent_cordons
        ≡ prune p.now cfg.policy.rate_limit_window_seconds
            (w.recent_cordons ++ replicate (pass_cordons w p) p.now))
      ⊎ ((pass_cordons w p ≡ 0) × (w'.recent_cordons ≡ w.recent_cordons))

  -- The cordons that the API server accepted in a round are those of `pass_cordons`.
  abbrev pub Recorded : World → Pass → World → Type 0
  Recorded w p w' =
      (performed p.cluster w'.calls ≡ performed p.cluster w.calls + pass_cordons w p)
      × History w p w'

  module _ (w : World) (p : Pass) where
    blind_round :
        wins parse_time stamp cfg p.cluster p.now p.cluster.lease ≡ true
        → p.cluster.nodes ≡ k8s_error
        → let w' = round parse_time stamp cfg p.cluster p.now w in
          (performed p.cluster w'.calls ≡ performed p.cluster w.calls)
          × (w'.recent_cordons ≡ w.recent_cordons)
    unfolding run_nodes
    blind_round won e =
        let v = led parse_time stamp cfg p.cluster p.now w in
        let (answered, c) =
          subst
            (λ a.
              let r = nodes_with parse_time stamp cfg p.cluster p.now a v in
              (r.0 ≡ k8s_error) × Cordons p.cluster p.now 0 v r.1)
            (sym e) (nodes_with-error parse_time stamp cfg p.cluster p.now v) in
        rw (round-led parse_time stamp cfg p.cluster p.now w won, answered, and_then)
          (
            omega (arith, c.sent, performed-led parse_time stamp cfg p.cluster p.now w),
            c.history ∙ append-nil w.recent_cordons,
          )

    pass_cordons_lem :
        (nodes : Answer (List Node))
        → wins parse_time stamp cfg p.cluster p.now p.cluster.lease ≡ true
        → p.cluster.nodes ≡ nodes
        → pass_cordons w p ≡ cordons_of parse_time stamp cfg p.cluster p.now nodes w.recent_cordons
    pass_cordons_lem nodes won e =
        rw won (ap (λ a. cordons_of parse_time stamp cfg p.cluster p.now a w.recent_cordons) e)

    recorded :
        (n : ℕ)
        → pass_cordons w p ≡ n
        → (performed p.cluster (round parse_time stamp cfg p.cluster p.now w).calls
            ≡ performed p.cluster w.calls + n)
        → (round parse_time stamp cfg p.cluster p.now w).recent_cordons
          ≡ prune p.now cfg.policy.rate_limit_window_seconds (w.recent_cordons ++ replicate n p.now)
        → Recorded w p (round parse_time stamp cfg p.cluster p.now w)
    recorded n e sent h = (
      omega (arith, sent, e),
      inl (
          h
          ∙ ap
              (λ k.
                prune p.now cfg.policy.rate_limit_window_seconds
                  (w.recent_cordons ++ replicate k p.now))
              (sym e)),
    )

    -- Whatever is answered in a round: the cordons that the API server accepts are those of
    -- `pass_cordons`, and the history is the old one with an entry at the time of the round for each
    -- of them, then pruned; a round without a cordon may also leave it as it is.
    pub round-Recorded : Recorded w p (round parse_time stamp cfg p.cluster p.now w)
    round-Recorded = elim (Bool-cases (wins parse_time stamp cfg p.cluster p.now p.cluster.lease)) [
      | inl won ↦ listed p.cluster.nodes p.cluster.pods won refl refl
      | inr lost ↦
          let stood = round_stands_down parse_time stamp cfg p.cluster p.now w lost in
          let no_cordon : pass_cordons w p ≡ 0 = rw lost in
          (
            omega (
              arith,
              ap (λ v. performed p.cluster v.calls) stood,
              no_cordon,
              performed-led parse_time stamp cfg p.cluster p.now w,
            ),
            inr (no_cordon, ap (λ v. v.recent_cordons) stood),
          )
    ]
      where
        listed :
            (nodes : Answer (List Node)) (pods : Answer (List Pod))
            → wins parse_time stamp cfg p.cluster p.now p.cluster.lease ≡ true
            → p.cluster.nodes ≡ nodes
            → p.cluster.pods ≡ pods
            → Recorded w p (round parse_time stamp cfg p.cluster p.now w)
        listed k8s_error pods won e f =
            let (sent, kept) = blind_round won e in
            let no_cordon = pass_cordons_lem k8s_error won e in
            (omega (arith, sent, no_cordon), inr (no_cordon, kept))
        listed (ok nodes) (ok pods) won e f =
            let b = round-Balance parse_time stamp cfg p.cluster p.now w nodes pods won e f in
            recorded _ (pass_cordons_lem (ok nodes) won e) b.sent b.history
        listed (ok nodes) k8s_error won e f =
            let b = round_uncounted parse_time stamp cfg p.cluster p.now w nodes won e f in
            recorded _ (pass_cordons_lem (ok nodes) won e) b.sent b.history
