-- ===== src/Guard/Loop/Exclusion.antt =====
-- Two replicas of guard/gpu_node_guard/main.py and the Lease between them, with the time stamps of
-- guard/gpu_node_guard/k8s.py.
use gpu_node_health.Base.{
  ℕ, ◌+◌, ◌*◌, ◌/◌, ◌≤◌, ◌<◌, false, ◌≡◌, refl, ◌∙◌, Option, none, some, [], ◌∷◌, ◌++◌, ◌=s=◌,
  arith,
}
use mathlib.Core.List.{append-nil}
use gpu_node_health.Base.Int.{pos, ◌-ℤ◌, ltb_ℤ}
use gpu_node_health.Guard.World.{Lease, get_lease, ok, Cluster, GuardConfig, World}
use gpu_node_health.Guard.Lease.{new_lease, renewed_lease, is_expired}
use gpu_node_health.Guard.Loop.{round}
use gpu_node_health.Guard.Loop.Leader.{is_free, wins, round_stands_down}
use gpu_node_health.Guard.Time.{parse_time, rfc3339_micro}
use gpu_node_health.Guard.Time.RoundTrip.{parse_time-rfc3339_micro}

-- The Lease that a guard writes over the one that it read.
abbrev pub claimed : GuardConfig → ℕ → Option Lease → Lease
claimed a t none = new_lease rfc3339_micro a (pos t)
claimed a t (some old) = renewed_lease rfc3339_micro a (pos t) old

still_running :
    (b : GuardConfig) (t n k : ℕ)
    → b.lease_duration_seconds ≡ pos k
    → n ≤ t / 1000000 * 1000000 + k * 1000000
    → is_expired b (pos n) (some (pos (t / 1000000 * 1000000))) ≡ false
unfolding ◌-ℤ◌ ltb_ℤ
still_running b t n k d h = rw d (ground arith)

not_free :
    (a b : GuardConfig) (cluster : Cluster) (t n k : ℕ) (old : Option Lease)
    → t / 1000000 < 250000000000
    → (a.identity =s= b.identity) ≡ false
    → b.lease_duration_seconds ≡ pos k
    → n ≤ t / 1000000 * 1000000 + k * 1000000
    → is_free parse_time rfc3339_micro b cluster (pos n) (some (claimed a t old)) ≡ false
not_free a b cluster t n k none early two d h =
    rw (two, parse_time-rfc3339_micro t early) (still_running b t n k d h)
not_free a b cluster t n k (some lease) early two d h =
    rw (two, parse_time-rfc3339_micro t early) (still_running b t n k d h)

-- Guard `a` has written the Lease at `t`, over any Lease that it read, and guard `b` has another identity and
-- reads that Lease. While the age of the Lease by the clock of `b` is at most the lease duration of
-- `b`, a round of `b` only reads it and stands down: it cordons and deletes nothing. The age counts from
-- the whole second in which `a` wrote; the duration is not negative, and `a` wrote between 1970 and
-- the year 9892, by its clock, and `b` reads after 1970, by its own.
pub round_excluded :
    (a b : GuardConfig) (cluster : Cluster) (t n k : ℕ) (old : Option Lease) (w : World)
    → t / 1000000 < 250000000000
    → (a.identity =s= b.identity) ≡ false
    → b.lease_duration_seconds ≡ pos k
    → n ≤ t / 1000000 * 1000000 + k * 1000000
    → cluster.lease ≡ ok (some (claimed a t old))
    → round parse_time rfc3339_micro b cluster (pos n) w ≡ record w {
      leading = false;
      calls = w.calls ++ get_lease ∷ [];
      state = record w.state { is_leader = false; last_loop = pos n };
    }
round_excluded a b cluster t n k old w early two d h reads =
    let held = not_free a b cluster t n k old early two d h in
    let lost : wins parse_time rfc3339_micro b cluster (pos n) cluster.lease ≡ false =
      rw (reads, held) refl in
    round_stands_down parse_time rfc3339_micro b cluster (pos n) w lost
    ∙ rw (reads, held, append-nil) refl
