-- ===== src/Agent/Samples.antt =====
-- Small readings for the tests of the agent.
use gpu_node_health.Base.{ℕ, true, false, List, [], ◌∷◌}
use gpu_node_health.Base.Int.{pos}
use gpu_node_health.Base.Dict.{Dict}
use gpu_node_health.Agent.Signals.{Kernlog}
use gpu_node_health.Agent.Conditions.Infos.{Evaluator, Info}
use gpu_node_health.Agent.Conditions.{Sample}

-- The defaults of `ConditionEvaluator`.
abbrev pub evaluator : Evaluator
evaluator = record { window = pos 900; engine_recurrence = pos 2 }

abbrev pub resets : ℕ → Dict ℕ
resets n = ("gpu_reset_begin", n) ∷ ("ring_timeout", 1) ∷ []

abbrev pub log_with : ℕ → Kernlog
log_with n = record {
  counts = resets n;
  last_hit = ("gpu_reset_begin", (pos 5000000, "GPU reset begin!")) ∷ [];
  files_ok = ("/var/log/syslog", true) ∷ ("/var/log/kern.log", false) ∷ [];
}

-- Two samples, 100 and 1500 seconds after the epoch: the first is out of the window at 1600 seconds.
abbrev pub earlier : List Sample
earlier =
    record { at = pos 100000000; counts = resets 0 }
    ∷ record { at = pos 1500000000; counts = resets 3 }
    ∷ []

abbrev pub down : Info
down = record { active = true; reason = "KernelFatalGPUEvent"; message = "m" }

abbrev pub up : Info
up = record { active = false; reason = "NoFatalGPUEvent"; message = "m" }
