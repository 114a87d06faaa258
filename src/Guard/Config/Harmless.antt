-- ===== src/Guard/Config/Harmless.antt =====
-- What a guard does that guard/gpu_node_guard/config.py does not set to enforce.
use gpu_node_health.Base.{String, ◌≢◌, Option, List, [], ◌∷◌}
use gpu_node_health.Base.Int.{Instant}
use gpu_node_health.Base.Lists.{All}
use gpu_node_health.Base.Env.{Env}
use gpu_node_health.Guard.Config.{config, guard_config, mode_setting}
use gpu_node_health.Guard.World.{World}
use gpu_node_health.Guard.Loop.Observe.{IsHarmless, round-Keeps}
use gpu_node_health.Guard.Loop.History.{Pass}
use gpu_node_health.Guard.Loop.Window.{run}

-- If GUARD_MODE, stripped and in lower case, is not enforce, then a guard with that environment sends
-- no request to cordon a node and none to delete a pod, over any rounds and whatever the API server
-- and the exporters answer, and whatever the other settings are.
pub run-IsHarmless :
    (parse_time : Option String → Option Instant) (stamp : Instant → String) (env : Env)
    (hostname : String) (ps : List Pass) (w : World)
    → mode_setting env ≢ "enforce"
    → All IsHarmless w.calls
    → All IsHarmless (run parse_time stamp (guard_config (config env) hostname) w ps).calls
unfolding run
run-IsHarmless parse_time stamp env hostname [] w h e = e
run-IsHarmless parse_time stamp env hostname (p ∷ ps) w h e =
    let cfg = guard_config (config env) hostname in
    run-IsHarmless parse_time stamp env hostname ps _ h (
      round-Keeps parse_time stamp cfg p.cluster p.now w (unfold guard_config config in h)
        (unfold guard_config config in h) e)
