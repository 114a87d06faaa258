-- ===== src/Agent/ServingTests.antt =====
-- The loop of the agent's main and its patch counters at small inputs.
use gpu_node_health.Base.{◌≡◌, refl, true, none, some, List, [], ◌∷◌, ◌=s=◌, if◌then◌else◌}
use gpu_node_health.Base.Int.{pos, negsuc, Instant, ◌-ℤ◌}
use gpu_node_health.Base.Dict.{get, put}
use gpu_node_health.Base.Env.{Env}
use gpu_node_health.Agent.Samples.{evaluator}
use gpu_node_health.Agent.Config.{config}
use gpu_node_health.Agent.Collector
use gpu_node_health.Base.Chars.{is_digit, is_space}
use gpu_node_health.Base.Parse.{parse_int}
use gpu_node_health.Agent.PatchCounters.Published.{garbled, Published-collect}
use gpu_node_health.Agent.PatchCounters.{Directory, holds, absent, counter_value, collect}
use gpu_node_health.Agent.Serving.{Turn, plain, do_get, start, turns}
use gpu_node_health.Agent.Serving.Turns.{Spaced, turns-Spaced}

abbrev publishing : Env
publishing name =
    if name =s= "NODE_CONDITIONS_ENABLED"
    then some "yes"
    else if name =s= "NODE_NAME"
    then some "n1"
    else none

abbrev at : Instant → Turn
at t = record { now = t; readings = none; checked = t; stamp = "t"; noted = t }

abbrev three_turns : List Turn
three_turns = at (pos 100000000) ∷ at (pos 115000000) ∷ at (pos 130000000) ∷ []

turns-Spaced_example :
    Spaced
      (config publishing)
      (turns evaluator (config publishing) three_turns (start (config publishing))).attempts
turns-Spaced_example = turns-Spaced (config publishing) evaluator three_turns

-- An agent before its first pass is not ready.
unready_test :
    do_get (config publishing) Collector.idle.state (pos 5000000) "/readyz?verbose"
    ≡ record { status = 503; body = plain "stale\n" }
unfolding do_get ◌-ℤ◌
unready_test = refl

abbrev counters : Directory
counters = record {
  is_dir = true;
  read = λ name.
      if name =s= "d3_failover_total"
      then holds "4\n"
      else if name =s= "ttm_delete_giveup_total"
      then holds "?"
      else absent;
}

Published-collect_example :
    get "ttm_delete_giveup_total" (collect counters).counters ≡ some (negsuc 0)
unfolding is_digit is_space
Published-collect_example =
    Published-collect counters "ttm_delete_giveup_total" (some (negsuc 0))
      (garbled "?" refl refl refl refl)

counters_test :
    (collect counters).counters
    ≡ ("ttm_delete_giveup_total", negsuc 0) ∷ ("d3_failover_total", pos 4) ∷ []
unfolding collect put counter_value parse_int
counters_test = refl
