-- ===== src/Guard/Supervisor/Clock.antt =====
-- The unreachable clocks of guard/gpu_node_guard/supervisor.py.
use gpu_node_health.Base.{
  String, ◌≡◌, refl, Bool, true, false, not, ◌&&◌, none, some, arith, ◌=s=◌, eq_iff, if◌then◌else◌,
}
use gpu_node_health.Base.Int.{◌-ℤ◌, ◌≤ℤ◌, Instant, seconds}
use gpu_node_health.Base.Dict.{get, get-put, get-pop, default_to}
use gpu_node_health.Guard.Supervisor.{
  Pod, delete, SupervisorConfig, Supervisor, text, url, in_cooldown, check_pod,
}

module _ (cfg : SupervisorConfig) (scrape : String → Bool) (now : Instant) where
  -- A pod that runs, has an address and does not answer there.
  abbrev pub unanswered : Pod → Bool
  unanswered pod =
      (text pod.phase =s= "Running")
      && (not (text pod.pod_ip =s= "") && not (scrape (url cfg (text pod.pod_ip))))

  -- A pod's clock runs after its check exactly if the pod runs, has an address and did not answer.
  -- It then shows the time of the first failure: the old time where it ran before, and now where it
  -- did not. Clocks of other pods do not change.
  pub clock-check_pod :
      (s : Supervisor) (pod : Pod) (name : String)
      → get name (check_pod cfg scrape now s pod).1.unreachable_since ≡ (
          if text pod.name =s= name
          then if unanswered pod
            then some (default_to now (get (text pod.name) s.unreachable_since))
            else none
          else get name s.unreachable_since)
  unfolding check_pod
  clock-check_pod s pod name = ground (
    arith,
    get-put (text pod.name) name (default_to now (get (text pod.name) s.unreachable_since))
        s.unreachable_since,
    get-pop (text pod.name) name s.unreachable_since,
  )

  -- What a delete decision rests on.
  pub record DeleteWarranted (s : Supervisor) (pod : Pod) : Type 0 where
    pub silent : unanswered pod ≡ true
    pub since : Instant
    pub clock : default_to now (get (text pod.name) s.unreachable_since) ≡ since
    pub long_enough : seconds cfg.exporter_unreachable_seconds ≤ℤ now -ℤ since
    pub cooled : in_cooldown cfg now (get (text pod.node_name) s.last_delete) ≡ false
    pub allowed : cfg.exporter_supervision_enabled ≡ true
    pub enforcing : cfg.mode ≡ "enforce"

  -- A delete is decided only for a pod that runs, has an address and does not answer there, whose
  -- clock shows the configured grace or more, on a node whose last deletion is out of the cooldown,
  -- with supervision on and in enforce mode.
  pub check_pod-DeleteWarranted :
      (s : Supervisor) (pod : Pod)
      → (check_pod cfg scrape now s pod).0.action ≡ delete
      → DeleteWarranted s pod
  unfolding check_pod
  check_pod-DeleteWarranted s pod c = record {
    silent = ground arith;
    since = default_to now (get (text pod.name) s.unreachable_since);
    clock = refl;
    long_enough = ground arith;
    cooled = ground arith;
    allowed = ground arith;
    enforcing = (eq_iff cfg.mode "enforce").0 (ground arith);
  }
