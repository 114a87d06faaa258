-- ===== src/Guard/SupervisorTests.antt =====
-- Runs of the exporter supervisor, and its theorems at them.
use gpu_node_health.Base.{
  String, ◌≡◌, refl, Bool, false, ◌=s=◌, List, [], ◌∷◌, if◌then◌else◌, none, some,
}
use gpu_node_health.Base.Int.{pos, ◌-ℤ◌}
use gpu_node_health.Base.Dict.{get, put, pop, default_to}
use gpu_node_health.Guard.Supervisor.{
  Pod, delete, fresh, text, forget, url, check_unanswered, check_pod, check_pods, evaluate,
}
use gpu_node_health.Guard.Supervisor.Clock.{
  unanswered, clock-check_pod, DeleteWarranted, check_pod-DeleteWarranted,
}
use gpu_node_health.Guard.Supervisor.Cooldown.{Round, Spaced, record_deletes, rounds, rounds-Spaced}
use gpu_node_health.Guard.Samples.{noon, supervision, pod, waiting}

-- What a supervisor test unfolds.
supervising : Unit {0}
unfolding check_unanswered check_pod check_pods evaluate forget rounds record_deletes get put pop
    ◌-ℤ◌
supervising = tt

-- No exporter answers.
abbrev silence : String → Bool
silence url = false

-- A second pod on the node of the first.
abbrev twin : Pod
twin = record pod { name = some "e2" }

pod_is_deleted : (check_pod supervision silence noon waiting pod).0.action ≡ delete
unfolding supervising
pod_is_deleted = refl

clock-check_pod_example :
    get "e1" (check_pod supervision silence noon waiting pod).1.unreachable_since ≡ (
      if text pod.name =s= "e1"
      then if unanswered supervision silence noon pod
        then some (default_to noon (get (text pod.name) waiting.unreachable_since))
        else none
      else get "e1" waiting.unreachable_since)
clock-check_pod_example = clock-check_pod supervision silence noon waiting pod "e1"

check_pod-DeleteWarranted_example : DeleteWarranted supervision silence noon waiting pod
check_pod-DeleteWarranted_example =
    check_pod-DeleteWarranted supervision silence noon waiting pod pod_is_deleted

-- Both pods fail at the epoch and stay silent, and the second round deletes one of them.
abbrev two_rounds : List Round
two_rounds =
    record { now = pos 0; scrape = silence; pods = pod ∷ twin ∷ [] }
    ∷ record { now = noon; scrape = silence; pods = pod ∷ twin ∷ [] }
    ∷ []

one_deletion : (rounds supervision fresh [] two_rounds).1 ≡ ("n1", noon) ∷ []
unfolding supervising
one_deletion = refl

rounds-Spaced_example : Spaced supervision (rounds supervision fresh [] two_rounds).1
rounds-Spaced_example = rounds-Spaced supervision two_rounds
