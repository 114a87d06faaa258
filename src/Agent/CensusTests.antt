-- ===== src/Agent/CensusTests.antt =====
-- A census of three threads, and its theorems at it.
use gpu_node_health.Base.{◌≡◌, refl, some, none, List, [], ◌∷◌, if◌then◌else◌}
use gpu_node_health.Base.Int.{pos, Instant, ◌-ℤ◌}
use gpu_node_health.Base.Dict.{default_to}
use gpu_node_health.Agent.Census.{
  start_clock, Task, denied, symbol, Since, CensusConfig, first_seen, no_tasks, is_gpu_task,
  count_task, count_tasks, collect_tasks,
}
use gpu_node_health.Agent.Census.Clocks.{in_d, clock-collect_tasks}
use gpu_node_health.Agent.Census.Counts.{Counted, Counted-collect_tasks}

abbrev census : CensusConfig
census = record {
  stuck_seconds = pos 60;
  gpu_comm_prefixes = "kworker/u26" ∷ [];
  gpu_wchan_substrings = "dma_fence" ∷ "ttm_" ∷ [];
}

-- A worker that waits for a fence, a thread whose wchan was refused, and one that runs.
abbrev tasks : List Task
tasks =
    record {
      pid = 7;
      tid = 7;
      stat = some (record { comm = "llama-server"; state = "D"; starttime = pos 100 });
      wchan = symbol "dma_fence_default_wait";
    }
    ∷ record {
      pid = 8;
      tid = 9;
      stat = some (record { comm = "cp"; state = "D"; starttime = pos 200 });
      wchan = denied;
    }
    ∷ record {
      pid = 10;
      tid = 10;
      stat = some (record { comm = "sh"; state = "R"; starttime = pos 300 });
      wchan = symbol "";
    }
    ∷ []

-- The first thread has been in D since the epoch; an earlier owner of the tid 9 had been, too.
abbrev clocks : Since
clocks = ((7, pos 100), pos 0) ∷ ((9, pos 50), pos 0) ∷ []

abbrev at_noon : Instant
at_noon = pos 90000000

one_is_stuck : (collect_tasks census at_noon clocks tasks).gpu_stuck ≡ 1
unfolding collect_tasks count_tasks count_task first_seen is_gpu_task start_clock ◌-ℤ◌
one_is_stuck = refl

clock-collect_tasks_example :
    first_seen (9, pos 200) (collect_tasks census at_noon clocks tasks).since ≡ (
      if in_d (9, pos 200) tasks
      then some (default_to at_noon (first_seen (9, pos 200) clocks))
      else none)
clock-collect_tasks_example = clock-collect_tasks census at_noon (9, pos 200) clocks tasks

Counted-collect_tasks_example :
    Counted census at_noon clocks tasks
      (no_tasks clocks)
      (collect_tasks census at_noon clocks tasks)
Counted-collect_tasks_example = Counted-collect_tasks census at_noon clocks tasks
