-- ===== src/Guard/ConfigTests.antt =====
-- Environments of the guard, and the theorem at one with a misspelled mode.
use gpu_node_health.Base.{◌≡◌, refl, none, some, List, [], ◌∷◌, ◌=s=◌, if◌then◌else◌}
use gpu_node_health.Base.Lists.{All}
use gpu_node_health.Base.Int.{pos}
use gpu_node_health.Base.Env.{Env}
use gpu_node_health.Base.Parse.{parse_int}
use gpu_node_health.Base.Show.{show_ℤ}
use gpu_node_health.Guard.Samples.{epoch, stamp, noon, cluster, start}
use gpu_node_health.Guard.World.{ok}
use gpu_node_health.Guard.Loop.History.{Pass}
use gpu_node_health.Guard.Loop.Window.{run}
use gpu_node_health.Guard.Loop.Observe.{IsHarmless}
use gpu_node_health.Guard.Config.{config, guard_config, policy_config, mode_setting}
use gpu_node_health.Guard.Config.Harmless.{run-IsHarmless}

abbrev misspelled : Env
misspelled name =
    if name =s= "GUARD_MODE"
    then some " enforced "
    else if name =s= "GUARD_MIN_HEALTHY_NODES"
    then some "1"
    else if name =s= "GUARD_MAX_CORDONS_PER_WINDOW"
    then some "many"
    else if name =s= "GUARD_ENFORCE_NODES"
    then some "n1, ,n2"
    else none

policy_test : policy_config (config misspelled) ≡ record {
  mode = "enforced";
  enforce_nodes = "n1" ∷ "n2" ∷ [];
  condition_min_age_seconds = pos 120;
  min_healthy_nodes = pos 1;
  max_cordons_per_window = pos 1;
  rate_limit_window_seconds = pos 3600;
}
unfolding policy_config config parse_int show_ℤ
policy_test = refl

abbrev passes : List Pass
passes = record { cluster = cluster (ok none) (ok []); now = noon } ∷ []

run-IsHarmless_example :
    All IsHarmless (run epoch stamp (guard_config (config misspelled) "host") start passes).calls
unfolding mode_setting
run-IsHarmless_example = run-IsHarmless epoch stamp misspelled "host" passes start (λ e. cc) tt
