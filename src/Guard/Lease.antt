-- ===== src/Guard/Lease.antt =====
-- guard/gpu_node_guard/main.py: `Leader.acquire_or_renew`.
-- `parse_time` and `stamp` (`rfc3339_micro`) are arguments.
use gpu_node_health.Base.{
  String, Bool, true, false, not, ◌&&◌, Option, none, some, [], ◌∷◌, ◌++◌, ◌=s=◌, if◌then◌else◌,
}
use gpu_node_health.Base.Int.{◌-ℤ◌, ltb_ℤ, Instant, seconds}
use gpu_node_health.Guard.World.{
  Lease, Call, get_lease, create_lease, update_lease, Answer, ok, k8s_error, Cluster, GuardConfig,
  M, ◌>>=◌, ◌>>◌, pure, modify, request,
}

-- Whether the time since the renewal is longer than the lease; no usable time counts as that.
abbrev pub is_expired : GuardConfig → Instant → Option Instant → Bool
is_expired cfg now none = true
is_expired cfg now (some renewed) = ltb_ℤ (seconds cfg.lease_duration_seconds) (now -ℤ renewed)

abbrev pub is_held_by : Option String → String → Bool
is_held_by none identity = false
is_held_by (some holder) identity = holder =s= identity

abbrev pub new_lease : (Instant → String) → GuardConfig → Instant → Lease
new_lease stamp cfg now = record {
  holder = some cfg.identity;
  renew_time = some (stamp now);
  acquire_time = some (stamp now);
  duration_seconds = cfg.lease_duration_seconds;
}

abbrev pub renewed_lease : (Instant → String) → GuardConfig → Instant → Lease → Lease
renewed_lease stamp cfg now lease = record {
  holder = some cfg.identity;
  renew_time = some (stamp now);
  acquire_time =
      if is_held_by lease.holder cfg.identity then lease.acquire_time else some (stamp now);
  duration_seconds = cfg.lease_duration_seconds;
}

module _ (parse_time : Option String → Option Instant) (stamp : Instant → String)
    (cfg : GuardConfig) (cluster : Cluster) (now : Instant) where
  -- The write that ends a try for the lease: `is_leader` says whether it was accepted.
  abbrev pub claim : Call → Bool → M Bool
  claim call accepted = do
    accepted' ← request call accepted
    modify (λ w. record w { leading = accepted' })
    pure accepted'

  abbrev pub with_lease : Answer (Option Lease) → M Bool
  with_lease k8s_error = do modify (λ w. record w { leading = false }); pure false
  with_lease (ok none) = claim (create_lease (new_lease stamp cfg now)) cluster.create_ok
  with_lease (ok (some lease)) =
      if not (is_held_by lease.holder cfg.identity)
        && not (is_expired cfg now (parse_time lease.renew_time))
      then (do modify (λ w. record w { leading = false }); pure false)
      else claim (update_lease (renewed_lease stamp cfg now lease)) cluster.update_ok

  -- The `except K8sError` of the source catches the error of each of the three requests.
  unfoldable pub acquire_or_renew : M Bool
  acquire_or_renew w = with_lease cluster.lease (record w { calls = w.calls ++ get_lease ∷ [] })
