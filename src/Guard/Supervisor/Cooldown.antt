-- ===== src/Guard/Supervisor/Cooldown.antt =====
-- Deletions over many evaluations of guard/gpu_node_guard/supervisor.py, and the size of its dict.
use gpu_node_health.Base.{
  String, ◌≡◌, refl, subst, ◌⊎◌, inl, inr, Bool, true, false, Option, none, some, List, [], ◌∷◌,
  map, arith, All, contains, Bool-cases,
}
use gpu_node_health.Base.Int.{◌-ℤ◌, ◌≤ℤ◌, ltb_ℤ→ge, Instant, seconds}
use gpu_node_health.Base.Dict.{Dict, get, put, get-put}
use gpu_node_health.Guard.Supervisor.{
  Pod, delete, noop, PodDecision, SupervisorConfig, Supervisor, fresh, text, forget, in_cooldown,
  check_pod, check_pods, evaluate,
}

-- The deletions that a list of decisions asks for, as node and time, newest first above the older.
abbrev log_one : Instant → PodDecision → Dict Instant → Dict Instant
log_one now d log = elim d.action [ delete ↦ (d.node, now) ∷ log | noop ↦ log ]

unfoldable pub record_deletes : Instant → List PodDecision → Dict Instant → Dict Instant
record_deletes now [] log = log
record_deletes now (d ∷ ds) log = record_deletes now ds (log_one now d log)

-- One evaluation: the clock, the answers of the exporters and the pods.
pub record Round : Type 0 where
  pub now : Instant
  pub scrape : String → Bool
  pub pods : List Pod

module _ (cfg : SupervisorConfig) where
  abbrev IsSince : Instant → Option Instant → Type 0
  IsSince t none = Unit
  IsSince t (some earlier) = seconds cfg.exporter_delete_cooldown_seconds ≤ℤ t -ℤ earlier

  -- Each deletion on a node is at least the cooldown after the deletion on that node before it.
  abbrev pub Spaced : Dict Instant → Type 0
  Spaced [] = Unit
  Spaced ((node, t) ∷ log) = IsSince t (get node log) × Spaced log

  record Logged (s : Supervisor) (log : Dict Instant) : Type 0 where
    pub newest : (node : String) → get node s.last_delete ≡ get node log
    pub spaced : Spaced log

  last_delete-check_pod :
      (scrape : String → Bool) (now : Instant) (s : Supervisor) (pod : Pod)
      → let r = check_pod cfg scrape now s pod in
        ((r.0.action ≡ noop) × (r.1.last_delete ≡ s.last_delete))
        ⊎ ((r.0.action ≡ delete)
            × (r.1.last_delete ≡ put r.0.node now s.last_delete)
            × (in_cooldown cfg now (get r.0.node s.last_delete) ≡ false))
  unfolding check_pod
  last_delete-check_pod scrape now s pod = ground arith

  IsSince_lem :
      (now : Instant) (last : Option Instant) → in_cooldown cfg now last ≡ false → IsSince now last
  IsSince_lem now none e = tt
  IsSince_lem now (some last) e =
      ltb_ℤ→ge (now -ℤ last) (seconds cfg.exporter_delete_cooldown_seconds) e

  check_pod-Logged :
      (scrape : String → Bool) (now : Instant) (s : Supervisor) (pod : Pod) (log : Dict Instant)
      → Logged s log
      → Logged
          (check_pod cfg scrape now s pod).1
          (log_one now (check_pod cfg scrape now s pod).0 log)
  check_pod-Logged scrape now s pod log h = elim (last_delete-check_pod scrape now s pod) [
    | inl (a, e) ↦ rw (a, log_one) (record { newest = λ n. rw e (h.newest n); spaced = h.spaced })
    | inr (a, e, c) ↦
        let node = (check_pod cfg scrape now s pod).0.node in
        rw (a, log_one)
          (record {
            newest = λ n. rw (e, get-put) (unfold get in rw (h.newest n));
            spaced = (subst (IsSince now) (h.newest node) (IsSince_lem now _ c), h.spaced);
          })
  ]

  check_pods-Logged :
      (scrape : String → Bool) (now : Instant) (pods : List Pod) (s : Supervisor)
      (log : Dict Instant)
      → Logged s log
      → Logged
          (check_pods cfg scrape now s pods).1
          (record_deletes now (check_pods cfg scrape now s pods).0 log)
  unfolding check_pods record_deletes
  check_pods-Logged scrape now [] s log h = h
  check_pods-Logged scrape now (pod ∷ pods) s log h =
      check_pods-Logged scrape now pods _ _ (check_pod-Logged scrape now s pod log h)

  -- The evaluations of a list of rounds, with the deletions that they asked for.
  unfoldable pub rounds : Supervisor → Dict Instant → List Round → Supervisor × Dict Instant
  rounds s log [] = (s, log)
  rounds s log (r ∷ rs) =
      let (decisions, s') = evaluate cfg r.scrape r.now s r.pods in
      rounds s' (record_deletes r.now decisions log) rs

  rounds-Logged :
      (rs : List Round) (s : Supervisor) (log : Dict Instant)
      → Logged s log
      → Logged (rounds s log rs).0 (rounds s log rs).1
  unfolding rounds evaluate
  rounds-Logged [] s log h = h
  rounds-Logged (r ∷ rs) s log h =
      let h' = check_pods-Logged r.scrape r.now r.pods s log h in
      rounds-Logged rs _ _ (record { newest = h'.newest; spaced = h'.spaced })

  -- From the start of the guard and over any rounds, whatever the exporters answer and whichever
  -- pods there are: between a deletion on a node and the one before it on that node there is at
  -- least the configured cooldown, also between two pods of one round.
  pub rounds-Spaced : (rs : List Round) → Spaced (rounds fresh [] rs).1
  rounds-Spaced rs = (rounds-Logged rs fresh [] (record { newest = λ n. refl; spaced = tt })).spaced

All-forget :
    (live : List String) (m : Dict Instant) → All (λ kv. contains kv.0 live ≡ true) (forget live m)
unfolding forget
All-forget live [] = tt
All-forget live ((name, since) ∷ rest) = elim (Bool-cases (contains name live)) [
  | inl e ↦ rw e (e, All-forget live rest)
  | inr e ↦ rw e (All-forget live rest)
]

-- After an evaluation every clock belongs to one of the pods that it was given: the dict cannot
-- outgrow the fleet.
pub All-evaluate :
    (cfg : SupervisorConfig) (scrape : String → Bool) (now : Instant) (s : Supervisor)
    (pods : List Pod)
    → All
        (λ kv. contains kv.0 (map (λ pod. text pod.name) pods) ≡ true)
        (evaluate cfg scrape now s pods).1.unreachable_since
unfolding evaluate
All-evaluate cfg scrape now s pods = All-forget (map (λ pod. text pod.name) pods) _
