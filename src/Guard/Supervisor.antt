-- ===== src/Guard/Supervisor.antt =====
-- guard/gpu_node_guard/supervisor.py: the exporter pods that do not answer. The dicts
-- `_unreachable_since` (by pod) and `_last_delete` (by node) are the state; the scrape and the clock
-- are arguments. A Kubernetes object's missing parent reads like its missing field.
pub mod Messages
pub mod Clock
pub mod Cooldown
use gpu_node_health.Base.{
  String, ◌<>◌, Bool, true, false, not, Option, none, some, List, [], ◌∷◌, map, ◌=s=◌, contains,
  if◌then◌else◌,
}
use gpu_node_health.Base.Int.{ℤ, pos, ◌-ℤ◌, ltb_ℤ, Instant, seconds}
use gpu_node_health.Base.Dict.{Dict, get, put, pop, default_to}
use gpu_node_health.Base.Show.{show_ℤ}
use Messages.{
  not_running_text, reachable_text, within_grace_text, cooldown_text, disabled_text,
  would_delete_text, deleted_text,
}

-- `.metadata.name`, `.spec.nodeName`, `.status.phase` and `.status.podIP`.
pub record Pod : Type 0 where
  pub name : Option String
  pub node_name : Option String
  pub phase : Option String
  pub pod_ip : Option String

pub data PodAction : Type 0 where
  delete noop : PodAction

pub data PodReason : Type 0 where
  reachable not_running no_pod_ip within_grace cooldown disabled would_delete deleted : PodReason

-- `unreachable_for` is `unreachable_seconds` before it is rounded to a tenth of a second.
pub record PodDecision : Type 0 where
  pub pod : String
  pub node : String
  pub action : PodAction
  pub reason : PodReason
  pub unreachable_for : Instant
  pub message : String

pub record SupervisorConfig : Type 0 where
  pub mode : String
  pub exporter_supervision_enabled : Bool
  pub exporter_port : ℤ
  pub exporter_unreachable_seconds : ℤ
  pub exporter_delete_cooldown_seconds : ℤ

pub record Supervisor : Type 0 where
  pub unreachable_since : Dict Instant
  pub last_delete : Dict Instant

abbrev pub fresh : Supervisor
fresh = record { unreachable_since = []; last_delete = [] }

abbrev pub text : Option String → String
text none = ""
text (some s) = s

-- The part of `d` that every decision shares.
abbrev decision : Pod → PodAction → PodReason → Instant → String → PodDecision
decision pod action reason elapsed message = record {
  pod = text pod.name;
  node = text pod.node_name;
  action = action;
  reason = reason;
  unreachable_for = elapsed;
  message = message;
}

-- `for gone in set(self._unreachable_since) - live`
unfoldable pub forget : List String → Dict Instant → Dict Instant
forget live [] = []
forget live ((name, since) ∷ rest) =
    let kept = forget live rest in if contains name live then (name, since) ∷ kept else kept

unfoldable pub url : SupervisorConfig → String → String
url cfg ip = "http://" <> (ip <> (":" <> (show_ℤ cfg.exporter_port <> "/metrics")))

abbrev pub in_cooldown : SupervisorConfig → Instant → Option Instant → Bool
in_cooldown cfg now none = false
in_cooldown cfg now (some last) = ltb_ℤ (now -ℤ last) (seconds cfg.exporter_delete_cooldown_seconds)

module _ (cfg : SupervisorConfig) (scrape : String → Bool) (now : Instant) where
  -- The body of the loop from the failed scrape on.
  unfoldable pub check_unanswered : Supervisor → Pod → PodDecision × Supervisor
  check_unanswered s pod =
      let name = text pod.name in
      let node = text pod.node_name in
      let since = default_to now (get name s.unreachable_since) in
      let elapsed = now -ℤ since in
      let s' : Supervisor = record s { unreachable_since = put name since s.unreachable_since } in
      if ltb_ℤ elapsed (seconds cfg.exporter_unreachable_seconds)
      then (
        decision pod noop within_grace elapsed
            (within_grace_text elapsed cfg.exporter_unreachable_seconds),
        s',
      )
      else if in_cooldown cfg now (get node s.last_delete)
      then (
        decision pod noop cooldown elapsed
            (cooldown_text node elapsed (now -ℤ default_to now (get node s.last_delete))),
        s',
      )
      else if not cfg.exporter_supervision_enabled
      then (decision pod noop disabled elapsed (disabled_text elapsed), s')
      else if not (cfg.mode =s= "enforce")
      then (decision pod noop would_delete elapsed (would_delete_text name elapsed), s')
      else (
        decision pod delete deleted elapsed (deleted_text name node elapsed),
        record s' { last_delete = put node now s.last_delete },
      )

  unfoldable pub check_pod : Supervisor → Pod → PodDecision × Supervisor
  unfolding check_unanswered
  check_pod s pod =
      let name = text pod.name in
      let cleared : Supervisor = record s { unreachable_since = pop name s.unreachable_since } in
      if not (text pod.phase =s= "Running")
      then (decision pod noop not_running (pos 0) (not_running_text pod.phase), cleared)
      else if text pod.pod_ip =s= ""
      then (decision pod noop no_pod_ip (pos 0) "Running with no podIP yet", cleared)
      else if scrape (url cfg (text pod.pod_ip))
      then (
        decision pod noop reachable (pos 0) (reachable_text (url cfg (text pod.pod_ip))),
        cleared,
      )
      else check_unanswered s pod

  unfoldable pub check_pods : Supervisor → List Pod → List PodDecision × Supervisor
  check_pods s [] = ([], s)
  check_pods s (pod ∷ pods) =
      let (d, s') = check_pod s pod in let (ds, s'') = check_pods s' pods in (d ∷ ds, s'')

  unfoldable pub evaluate : Supervisor → List Pod → List PodDecision × Supervisor
  unfolding check_pods forget
  evaluate s pods =
      let (decisions, s') = check_pods s pods in
      let live = map (λ pod. text pod.name) pods in
      (decisions, record s' { unreachable_since = forget live s'.unreachable_since })
