-- ===== src/Guard/Loop/Leader.antt =====
-- `Leader.acquire_or_renew` of guard/gpu_node_guard/main.py, and a pass without the lease.
use gpu_node_health.Base.{
  String, ◌≡◌, refl, Bool, true, false, ◌&&◌, ◌||◌, Option, none, some, List, [], ◌∷◌, ◌++◌,
  Bool-cases, inl, inr, if◌then◌else◌,
}
use mathlib.Core.List.{append-nil}
use gpu_node_health.Base.Int.{Instant}
use gpu_node_health.Guard.World.{
  Lease, Call, get_lease, create_lease, update_lease, Answer, ok, k8s_error, Cluster, GuardConfig,
  World,
}
use gpu_node_health.Guard.Lease.{
  is_expired, is_held_by, new_lease, renewed_lease, with_lease, acquire_or_renew,
}
use gpu_node_health.Guard.Loop.{loop_once, round}

module _ (parse_time : Option String → Option Instant) (stamp : Instant → String)
    (cfg : GuardConfig) (cluster : Cluster) (now : Instant) where
  -- The lease is free to take for this guard: nobody's, its own, or one that ran out.
  abbrev pub is_free : Option Lease → Bool
  is_free none = true
  is_free (some lease) =
      is_held_by lease.holder cfg.identity || is_expired cfg now (parse_time lease.renew_time)

  abbrev pub accepts_write : Option Lease → Bool
  accepts_write none = cluster.create_ok
  accepts_write (some lease) = cluster.update_ok

  -- When a try for the lease succeeds.
  abbrev pub wins : Answer (Option Lease) → Bool
  wins k8s_error = false
  wins (ok lease) = is_free lease && accepts_write lease

  -- What the writes of a try are.
  abbrev pub lease_calls : Answer (Option Lease) → List Call
  lease_calls k8s_error = []
  lease_calls (ok none) = create_lease (new_lease stamp cfg now) ∷ []
  lease_calls (ok (some lease)) =
      if is_free (some lease) then update_lease (renewed_lease stamp cfg now lease) ∷ [] else []

  with_lease_lem :
      (answer : Answer (Option Lease)) (w : World)
      → with_lease parse_time stamp cfg cluster now answer w ≡ (
        ok (wins answer),
        record w { leading = wins answer; calls = w.calls ++ lease_calls answer },
      )
  with_lease_lem k8s_error w = rw append-nil
  with_lease_lem (ok none) w = refl
  with_lease_lem (ok (some lease)) w =
      let kept = append-nil w.calls in
      elim (Bool-cases (is_held_by lease.holder cfg.identity)) [
        | inl held ↦ rw held
        | inr other ↦ elim (Bool-cases (is_expired cfg now (parse_time lease.renew_time))) [
          | inl late ↦ rw (other, late)
          | inr running ↦ rw (other, running) (rw append-nil)
        ]
      ]

  -- A try for the lease succeeds exactly if it could be read, is nobody's or this guard's or has run
  -- out, and the API server accepts the one write that the try then makes. The guard leads after the
  -- try exactly if it succeeds, and beyond the read and that write nothing is sent or changed.
  pub acquire_or_renew_lem :
      (w : World)
      → acquire_or_renew parse_time stamp cfg cluster now w ≡ (
        ok (wins cluster.lease),
        record w {
          leading = wins cluster.lease;
          calls = (w.calls ++ get_lease ∷ []) ++ lease_calls cluster.lease;
        },
      )
  unfolding acquire_or_renew
  acquire_or_renew_lem w =
      with_lease_lem cluster.lease (record w { calls = w.calls ++ get_lease ∷ [] })

  -- A guard that does not get the lease only stands down: it sends nothing but the read and the write
  -- of the lease, so that it cordons and deletes nothing, and keeps its histories and counters.
  pub round_stands_down :
      (w : World)
      → wins cluster.lease ≡ false
      → round parse_time stamp cfg cluster now w ≡ record w {
        leading = false;
        calls = (w.calls ++ get_lease ∷ []) ++ lease_calls cluster.lease;
        state = record w.state { is_leader = false; last_loop = now };
      }
  unfolding round loop_once
  round_stands_down w lost = rw (acquire_or_renew_lem, lost)
