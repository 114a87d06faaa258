-- ===== src/Agent/Census/Clocks.antt =====
-- The clocks of `DStateCensus` of agent/gpu_health_agent/signals/dstate.py.
use gpu_node_health.Base.{
  ℕ, ◌≡◌, refl, ap, ◌∙◌, Bool, true, false, ◌&&◌, ◌||◌, Option, none, some, List, [], ◌∷◌, ◌=s=◌,
  Bool-cases, inl, inr, arith, if◌then◌else◌,
}
use gpu_node_health.Base.Int.{Instant}
use gpu_node_health.Base.Dict.{default_to}
use gpu_node_health.Agent.Census.{
  TaskStat, Task, Key, same_key, Since, first_seen, start_clock, was_seen, forget_unseen,
  CensusConfig, Census, no_tasks, count_task, count_stat, count_tasks, collect_tasks,
}

first_seen-start_clock :
    (k j : Key) (now : Instant) (since : Since)
    → first_seen j (start_clock k now since)
      ≡ (if same_key k j then some (default_to now (first_seen j since)) else first_seen j since)
unfolding first_seen start_clock
first_seen-start_clock k j now [] = ground arith
first_seen-start_clock k j now ((i, t) ∷ rest) = ground (arith, first_seen-start_clock k j now rest)

was_seen_same :
    (j k : Key) (seen : List Key) → same_key j k ≡ true → was_seen j seen ≡ was_seen k seen
unfolding was_seen
was_seen_same j k [] e = refl
was_seen_same j k (i ∷ seen) e = ground (arith, was_seen_same j k seen e)

first_seen-forget_unseen :
    (seen : List Key) (k : Key) (since : Since)
    → first_seen k (forget_unseen seen since)
      ≡ (if was_seen k seen then first_seen k since else none)
unfolding first_seen forget_unseen
first_seen-forget_unseen seen k [] = ground arith
first_seen-forget_unseen seen k ((j, t) ∷ rest) = elim (Bool-cases (same_key j k)) [
  | inl e ↦
      rw (e, was_seen_same j k seen e) (ground (arith, e, first_seen-forget_unseen seen k rest))
  | inr e ↦ ground (arith, e, first_seen-forget_unseen seen k rest)
]

-- A thread of the key is in D.
abbrev pub is_in_d : Key → ℕ → Option TaskStat → Bool
is_in_d k tid none = false
is_in_d k tid (some stat) = (stat.state =s= "D") && same_key (tid, stat.starttime) k

abbrev pub in_d : Key → List Task → Bool
in_d k [] = false
in_d k (task ∷ tasks) = is_in_d k task.tid task.stat || in_d k tasks

abbrev pub started : Instant → Bool → Option Instant → Option Instant
started now b clock = if b then some (default_to now clock) else clock

module _ (cfg : CensusConfig) (now : Instant) (k : Key) where
  pub since-count_stat :
      (task : Task) (stat : Option TaskStat) (c : Census)
      → first_seen k (count_stat cfg now task stat c).since
        ≡ started now (is_in_d k task.tid stat) (first_seen k c.since)
  unfolding count_task
  since-count_stat task none c = refl
  since-count_stat task (some stat) c =
      ground (arith, first_seen-start_clock (task.tid, stat.starttime) k now c.since)

  seen-count_stat :
      (task : Task) (stat : Option TaskStat) (c : Census)
      → was_seen k (count_stat cfg now task stat c).seen
        ≡ (is_in_d k task.tid stat || was_seen k c.seen)
  unfolding count_task was_seen
  seen-count_stat task none c = refl
  seen-count_stat task (some stat) c = ground arith

  since-count_tasks :
      (tasks : List Task) (c : Census)
      → first_seen k (count_tasks cfg now tasks c).since
        ≡ started now (in_d k tasks) (first_seen k c.since)
  unfolding count_tasks
  since-count_tasks [] c = refl
  since-count_tasks (task ∷ tasks) c =
      since-count_tasks tasks (count_stat cfg now task task.stat c)
      ∙ ap (started now (in_d k tasks)) (since-count_stat task task.stat c)
      ∙ ground arith

  seen-count_tasks :
      (tasks : List Task) (c : Census)
      → was_seen k (count_tasks cfg now tasks c).seen ≡ (in_d k tasks || was_seen k c.seen)
  unfolding count_tasks
  seen-count_tasks [] c = refl
  seen-count_tasks (task ∷ tasks) c =
      seen-count_tasks tasks (count_stat cfg now task task.stat c)
      ∙ ap (λ b. in_d k tasks || b) (seen-count_stat task task.stat c)
      ∙ ground arith

  -- After a census, the clock of a thread, told apart by tid and start time, runs exactly if the
  -- census found the thread in D, and shows the old time where it ran before and now where it did not.
  -- So a thread that left D, and a new one under an old tid, are timed from scratch.
  pub clock-collect_tasks :
      (since : Since) (tasks : List Task)
      → first_seen k (collect_tasks cfg now since tasks).since
        ≡ (if in_d k tasks then some (default_to now (first_seen k since)) else none)
  unfolding collect_tasks
  clock-collect_tasks since tasks =
      let c = count_tasks cfg now tasks (no_tasks since) in
      first_seen-forget_unseen c.seen k c.since
      ∙ ap (λ b. if b then first_seen k c.since else none) (seen-count_tasks tasks (no_tasks since))
      ∙ ap (λ o. if in_d k tasks || was_seen k [] then o else none)
          (since-count_tasks tasks (no_tasks since))
      ∙ unfold was_seen in ground arith
