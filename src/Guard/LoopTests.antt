-- ===== src/Guard/LoopTests.antt =====
-- Rounds of the guard, and the theorems on its loop at them.
use gpu_node_health.Base.{◌≡◌, refl, List, [], ◌∷◌, ◌++◌, none, some, arith, false}
use gpu_node_health.Base.Int.{pos, ◌-ℤ◌}
use gpu_node_health.Guard.Policy.Types.{out_of_scope, PolicyConfig, Decision}
use gpu_node_health.Guard.Policy.DryRun.{observing}
use gpu_node_health.Guard.Policy.{decide_node}
use gpu_node_health.Guard.World.{Cluster, GuardConfig, get_lease, ok, k8s_error}
use gpu_node_health.Guard.Lease.{acquire_or_renew}
use gpu_node_health.Guard.Loop.{round, carry_out}
use gpu_node_health.Guard.Loop.Nodes.{cordons_of}
use gpu_node_health.Guard.Loop.Leader.{wins, lease_calls, acquire_or_renew_lem, round_stands_down}
use gpu_node_health.Guard.Loop.Accounting.{Balance, round-Balance, round_uncounted}
use gpu_node_health.Guard.Loop.History.{Pass}
use gpu_node_health.Guard.Loop.Window.{cordon_log, Limited, rate_limit_holds}
use gpu_node_health.Guard.Loop.Refusals.{refusal_calls, scope_refusal_silent}
use gpu_node_health.Guard.Samples.{
  deciding, epoch, stamp, noon, fleet, sick, policy, pod, guard, cluster, others_lease, start,
}

-- The lease is free and every request is answered.
abbrev quiet : Cluster
quiet = cluster (ok none) (ok (pod ∷ []))

-- The lease is free and the pods cannot be listed.
abbrev podless : Cluster
podless = cluster (ok none) k8s_error

-- Another guard holds the lease.
abbrev led_by_other : Cluster
led_by_other = cluster (ok (some others_lease)) (ok [])

acquire_or_renew_lem_example : acquire_or_renew epoch stamp guard quiet noon start ≡ (
  ok (wins epoch stamp guard quiet noon quiet.lease),
  record start {
    leading = wins epoch stamp guard quiet noon quiet.lease;
    calls = (start.calls ++ get_lease ∷ []) ++ lease_calls epoch stamp guard quiet noon quiet.lease;
  },
)
acquire_or_renew_lem_example = acquire_or_renew_lem epoch stamp guard quiet noon start

round_stands_down_example : round epoch stamp guard led_by_other (pos 10) start ≡ record start {
  leading = false;
  calls =
      (start.calls ++ get_lease ∷ [])
      ++ lease_calls epoch stamp guard led_by_other (pos 10) led_by_other.lease;
  state = record start.state { is_leader = false; last_loop = pos 10 };
}
unfolding ◌-ℤ◌
round_stands_down_example = round_stands_down epoch stamp guard led_by_other (pos 10) start refl

round-Balance_example :
    Balance epoch stamp guard quiet noon
      (cordons_of epoch stamp guard quiet noon (ok fleet) start.recent_cordons)
      (cordons_of epoch stamp guard quiet noon (ok fleet) start.recent_cordons)
      0
      start
      (round epoch stamp guard quiet noon start)
round-Balance_example =
    round-Balance epoch stamp guard quiet noon start fleet (pod ∷ []) refl refl refl

round_uncounted_example :
    Balance epoch stamp guard podless noon
      (cordons_of epoch stamp guard podless noon (ok fleet) start.recent_cordons)
      0
      1
      start
      (round epoch stamp guard podless noon start)
round_uncounted_example = round_uncounted epoch stamp guard podless noon start fleet refl refl refl

abbrev three_passes : List Pass
three_passes =
    record { cluster = quiet; now = noon }
    ∷ record { cluster = podless; now = noon }
    ∷ record { cluster = led_by_other; now = pos 4000000000 }
    ∷ []

rate_limit_holds_example :
    Limited epoch stamp guard (cordon_log epoch stamp guard start [] three_passes) noon
rate_limit_holds_example =
    rate_limit_holds epoch stamp guard start (pos 0) three_passes noon refl
      (omega arith, (omega arith, (omega arith, tt)))

-- Only n3 may be cordoned.
abbrev scoped : GuardConfig
scoped = record guard { policy = record policy { enforce_nodes = "n3" ∷ [] } }

-- The decision on n1.
abbrev refused : PolicyConfig → Decision
refused cfg = (decide_node epoch noon cfg fleet sick (pos 1)).0

refused_out_of_scope : (refused scoped.policy).reason ≡ out_of_scope
unfolding deciding
refused_out_of_scope = refl

scope_refusal_silent_example :
    ((carry_out epoch stamp scoped quiet noon (refused scoped.policy) start).1.calls ≡ start.calls)
    × ((carry_out epoch stamp scoped quiet noon (refused (observing scoped.policy)) start).1.calls
        ≡ start.calls
          ++ refusal_calls epoch stamp scoped quiet noon
              (some "GPUCordonWouldHave")
              (refused (observing scoped.policy)))
scope_refusal_silent_example =
    scope_refusal_silent epoch stamp scoped quiet noon fleet sick (pos 1) start refl
      refused_out_of_scope
