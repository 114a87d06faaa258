-- ===== src/Agent/Census/Counts.antt =====
-- The numbers of `DStateCensus` of agent/gpu_health_agent/signals/dstate.py.
use gpu_node_health.Base.{
  ℕ, ◌+◌, ◌≡◌, refl, ap, ◌∙◌, Bool, true, not, ◌&&◌, Option, none, some, List, [], ◌∷◌, ◌=s=◌,
  arith, Bool-cases, inl, inr,
}
use gpu_node_health.Base.Int.{◌-ℤ◌, ltb_ℤ, Instant, seconds}
use gpu_node_health.Base.Dict.{default_to}
use gpu_node_health.Agent.Census.{
  TaskStat, Task, Key, Since, first_seen, CensusConfig, Census, no_tasks, is_gpu_task, is_denied,
  one_if, count_task, count_stat, count_tasks, collect_tasks,
}
use gpu_node_health.Agent.Census.Clocks.{since-count_stat}

-- How many threads in D have a property of their stat and wchan.
abbrev one_in_d : (Task → TaskStat → Bool) → Task → Option TaskStat → ℕ
one_in_d P task none = 0
one_in_d P task (some stat) = one_if ((stat.state =s= "D") && P task stat)

abbrev pub count_in_d : (Task → TaskStat → Bool) → List Task → ℕ
count_in_d P [] = 0
count_in_d P (task ∷ tasks) = one_in_d P task task.stat + count_in_d P tasks

module _ (cfg : CensusConfig) (now : Instant) (since : Since) where
  -- In D for the configured time, by the clocks from before the census.
  abbrev pub held : Task → TaskStat → Bool
  held task stat = not (
      ltb_ℤ (now -ℤ default_to now (first_seen (task.tid, stat.starttime) since))
        (seconds cfg.stuck_seconds))

  abbrev pub on_gpu : Task → TaskStat → Bool
  on_gpu task stat = is_gpu_task cfg stat.comm task.wchan

  abbrev pub any_task : Task → TaskStat → Bool
  any_task task stat = true

  abbrev pub held_on_gpu : Task → TaskStat → Bool
  held_on_gpu task stat = held task stat && on_gpu task stat

  abbrev pub undisclosed : Task → TaskStat → Bool
  undisclosed task stat = is_denied task.wchan

  -- The numbers of `c'` are those of `c` and of the threads.
  pub record Counted (tasks : List Task) (c c' : Census) : Type 0 where
    pub total : c'.total ≡ c.total + count_in_d any_task tasks
    pub stuck : c'.stuck ≡ c.stuck + count_in_d held tasks
    pub gpu_total : c'.gpu_total ≡ c.gpu_total + count_in_d on_gpu tasks
    pub gpu_stuck : c'.gpu_stuck ≡ c.gpu_stuck + count_in_d held_on_gpu tasks
    pub wchan_denied : c'.wchan_denied ≡ c.wchan_denied + count_in_d undisclosed tasks

  -- The clocks of a census under way read like those from before it.
  abbrev Reads : Census → Type 0
  Reads c = (k : Key) → default_to now (first_seen k c.since) ≡ default_to now (first_seen k since)

  Reads-count_stat :
      (task : Task) (stat : Option TaskStat) (c : Census)
      → Reads c
      → Reads (count_stat cfg now task stat c)
  Reads-count_stat task stat c h k =
      ap (default_to now) (since-count_stat cfg now k task stat c) ∙ ground (arith, h k)

  Counted-count_stat :
      (task : Task) (stat : Option TaskStat) (c : Census)
      → Reads c
      → let c' = count_stat cfg now task stat c in
        (c'.total ≡ c.total + one_in_d any_task task stat)
        × (c'.stuck ≡ c.stuck + one_in_d held task stat)
        × (c'.gpu_total ≡ c.gpu_total + one_in_d on_gpu task stat)
        × (c'.gpu_stuck ≡ c.gpu_stuck + one_in_d held_on_gpu task stat)
        × (c'.wchan_denied ≡ c.wchan_denied + one_in_d undisclosed task stat)
  unfolding count_task
  Counted-count_stat task none c h = omega arith
  Counted-count_stat task (some stat) c h = elim (Bool-cases (stat.state =s= "D")) [
    | inl e ↦ rw (e, h (task.tid, stat.starttime)) (refl, refl, refl, refl, refl)
    | inr e ↦ rw e (omega arith)
  ]

  Counted-count_tasks :
      (tasks : List Task) (c : Census) → Reads c → Counted tasks c (count_tasks cfg now tasks c)
  unfolding count_tasks
  Counted-count_tasks [] c h = record {
    total = omega arith;
    stuck = omega arith;
    gpu_total = omega arith;
    gpu_stuck = omega arith;
    wchan_denied = omega arith;
  }
  Counted-count_tasks (task ∷ tasks) c h =
      let rest =
        Counted-count_tasks tasks (count_stat cfg now task task.stat c)
          (Reads-count_stat task task.stat c h) in
      let (t, s, g, gs, d) = Counted-count_stat task task.stat c h in
      record {
        total = omega (arith, rest.total, t);
        stuck = omega (arith, rest.stuck, s);
        gpu_total = omega (arith, rest.gpu_total, g);
        gpu_stuck = omega (arith, rest.gpu_stuck, gs);
        wchan_denied = omega (arith, rest.wchan_denied, d);
      }

  -- The numbers of a census are counts over the threads in D: all of them, those that have been there
  -- for the configured time, those on a GPU, those that are both, and those whose wchan was refused. The
  -- time is that of the clocks from before the census, also for a thread that it lists twice.
  pub Counted-collect_tasks :
      (tasks : List Task) → Counted tasks (no_tasks since) (collect_tasks cfg now since tasks)
  unfolding collect_tasks
  Counted-collect_tasks tasks =
      let n = Counted-count_tasks tasks (no_tasks since) (λ k. refl) in
      record {
        total = n.total;
        stuck = n.stuck;
        gpu_total = n.gpu_total;
        gpu_stuck = n.gpu_stuck;
        wchan_denied = n.wchan_denied;
      }
