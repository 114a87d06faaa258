-- ===== src/Guard/Loop/Window.antt =====
-- The rate limit over many rounds of guard/gpu_node_guard/main.py, `run_forever`.
use gpu_node_health.Base.{
  ◌+◌, String, ◌≡◌, refl, ap, ◌∙◌, ◌⊎◌, inl, inr, Option, List, [], ◌∷◌, ◌++◌, arith, Bool-cases,
}
use gpu_node_health.Base.Int.{ℤ, pos, ◌≤ℤ◌, ltb_ℤ, ltb_ℤ→ge, Instant}
use gpu_node_health.Guard.Policy
use gpu_node_health.Guard.Policy.{recent_count}
use gpu_node_health.Guard.Policy.RateLimit.{cordon_count-decide}
use gpu_node_health.Guard.Policy.Types.{Node}
use gpu_node_health.Guard.World.{Answer, ok, k8s_error, Cluster, GuardConfig, World}
use gpu_node_health.Guard.Loop.{round}
use gpu_node_health.Guard.Loop.Counting.{
  count_window, recent_count-append, count_window-append, recent_count-prune, count_window-le,
  recent_count_anti, recent_count-replicate-le, count_window_before,
}
use gpu_node_health.Guard.Loop.Effects.{replicate, accepted_all-le}
use gpu_node_health.Guard.Loop.Nodes.{cordons_of}
use gpu_node_health.Guard.Loop.Leader.{wins}
use gpu_node_health.Guard.Loop.History.{Pass, pass_cordons, round-Recorded}

module _ (parse_time : Option String → Option Instant) (stamp : Instant → String)
    (cfg : GuardConfig) where
  -- The rounds of a list of passes.
  unfoldable pub run : World → List Pass → World
  run w [] = w
  run w (p ∷ ps) = run (round parse_time stamp cfg p.cluster p.now w) ps

  -- The instants of the cordons that the rounds perform, oldest first, behind those of `log`.
  unfoldable pub cordon_log : World → List Instant → List Pass → List Instant
  cordon_log w log [] = log
  cordon_log w log (p ∷ ps) =
      cordon_log (round parse_time stamp cfg p.cluster p.now w)
        (log ++ replicate (pass_cordons parse_time stamp cfg w p) p.now) ps

  abbrev window : ℤ
  window = cfg.policy.rate_limit_window_seconds

  abbrev pub Limited : List Instant → Instant → Type 0
  Limited log t =
      (count_window cfg.policy.rate_limit_window_seconds t log ≡ 0)
      ⊎ (pos (count_window cfg.policy.rate_limit_window_seconds t log)
          ≤ℤ cfg.policy.max_cordons_per_window)

  -- The history counts like the whole log from `last` on, and the log keeps the limit.
  record Tracked (last : Instant) (w : World) (log : List Instant) : Type 0 where
    pub counts :
        (t : Instant)
        → last ≤ℤ t
        → recent_count t window w.recent_cordons ≡ recent_count t window log
    pub limited : (t : Instant) → Limited log t

  cordons_of-Limited :
      (cluster : Cluster) (now : Instant) (answer : Answer (List Node)) (recent : List Instant)
      → let n = cordons_of parse_time stamp cfg cluster now answer recent in
        (n ≡ 0) ⊎ (pos (n + recent_count now window recent) ≤ℤ cfg.policy.max_cordons_per_window)
  cordons_of-Limited cluster now k8s_error recent = inl refl
  cordons_of-Limited cluster now (ok nodes) recent = ground (
    arith,
    cordon_count-decide parse_time now cfg.policy nodes recent,
    accepted_all-le cluster (Policy.decide parse_time now cfg.policy nodes recent),
  )

  -- A round performs nothing, or no more than the limit leaves.
  pass_cordons-Limited :
      (w : World) (p : Pass)
      → (pass_cordons parse_time stamp cfg w p ≡ 0)
        ⊎ (pos (pass_cordons parse_time stamp cfg w p + recent_count p.now window w.recent_cordons)
            ≤ℤ cfg.policy.max_cordons_per_window)
  pass_cordons-Limited w p =
      elim (Bool-cases (wins parse_time stamp cfg p.cluster p.now p.cluster.lease)) [
        | inl won ↦ rw won (cordons_of-Limited p.cluster p.now p.cluster.nodes w.recent_cordons)
        | inr lost ↦ inl (rw lost)
      ]

  module _ (w : World) (p : Pass) (last : Instant) (log : List Instant) where
    counts-round :
        (t : Instant)
        → p.now ≤ℤ t
        → recent_count t window w.recent_cordons ≡ recent_count t window log
        → recent_count t window (round parse_time stamp cfg p.cluster p.now w).recent_cordons
          ≡ recent_count t window (log ++ replicate (pass_cordons parse_time stamp cfg w p) p.now)
    counts-round t later same =
        let n = pass_cordons parse_time stamp cfg w p in
        let added = replicate n p.now in
        elim ((round-Recorded parse_time stamp cfg w p).1) [
          | inl e ↦
              ap (recent_count t window) e
              ∙ recent_count-prune window p.now t (w.recent_cordons ++ added) later
              ∙ omega (
                arith,
                recent_count-append window t w.recent_cordons added,
                recent_count-append window t log added,
              )
          | inr (none, e) ↦
              ap (recent_count t window) e
              ∙ omega (
                arith,
                recent_count-append window t log added,
                recent_count-replicate-le window t p.now n,
              )
        ]

    Limited-round :
        (t : Instant)
        → recent_count p.now window w.recent_cordons ≡ recent_count p.now window log
        → Limited log t
        → Limited (log ++ replicate (pass_cordons parse_time stamp cfg w p) p.now) t
    Limited-round t same h =
        let n = pass_cordons parse_time stamp cfg w p in
        let added = replicate n p.now in
        let split = count_window-append window t log added in
        elim (Bool-cases (ltb_ℤ t p.now)) [
          | inl before ↦ ground (arith, split, count_window_before window t p.now n before)
          | inr after ↦ ground (
            arith,
            split,
            pass_cordons-Limited w p,
            count_window-le window t added,
            count_window-le window t log,
            recent_count-replicate-le window t p.now n,
            recent_count_anti window p.now t log (ltb_ℤ→ge t p.now after),
          )
        ]

  -- The clock never goes back.
  abbrev pub Ordered : Instant → List Pass → Type 0
  Ordered last [] = Unit
  Ordered last (p ∷ ps) = (last ≤ℤ p.now) × Ordered p.now ps

  round-Tracked :
      (w : World) (p : Pass) (last : Instant) (log : List Instant)
      → last ≤ℤ p.now
      → Tracked last w log
      → Tracked p.now
          (round parse_time stamp cfg p.cluster p.now w)
          (log ++ replicate (pass_cordons parse_time stamp cfg w p) p.now)
  round-Tracked w p last log order h = record {
    counts = λ t later. counts-round w p last log t later (h.counts t (omega arith));
    limited = λ t. Limited-round w p last log t (h.counts p.now order) (h.limited t);
  }

  run-Limited :
      (ps : List Pass) (w : World) (last : Instant) (log : List Instant)
      → Ordered last ps
      → Tracked last w log
      → (t : Instant) → Limited (cordon_log w log ps) t
  unfolding cordon_log
  run-Limited [] w last log o h t = h.limited t
  run-Limited (p ∷ ps) w last log o h t =
      run-Limited ps (round parse_time stamp cfg p.cluster p.now w) p.now
        (log ++ replicate (pass_cordons parse_time stamp cfg w p) p.now) o.1
        (round-Tracked w p last log o.0 h) t

  -- The rate limit holds over the whole life of a guard: it starts with no history, and its clock
  -- never goes back. Whatever the API server answers, and however often passes fail or the lease is
  -- lost, every time window of the configured length holds no cordon that the guard performed, or at
  -- most the configured number of them.
  pub rate_limit_holds :
      (w : World) (start : Instant) (ps : List Pass) (t : Instant)
      → w.recent_cordons ≡ []
      → Ordered start ps
      → Limited (cordon_log w [] ps) t
  rate_limit_holds w start ps t e o =
      run-Limited ps w start [] o
        (record {
          counts = λ u _. ap (recent_count u window) e;
          limited = λ u. inl (unfold count_window in refl);
        })
        t
