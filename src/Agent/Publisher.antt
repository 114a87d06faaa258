-- ===== src/Agent/Publisher.antt =====
-- agent/gpu_health_agent/main.py: `ConditionPublisher.publish`. The print of the clock is an argument.
-- An error of the patch is only logged, so that the patch's answer changes nothing.
pub mod Flips
use gpu_node_health.Base.{
  String, ◌<>◌, Bool, true, false, Option, none, some, List, [], ◌∷◌, ◌++◌, ◌=s=◌, take_chars,
  if◌then◌else◌,
}
use gpu_node_health.Base.Dict.{Dict, get, put}
use gpu_node_health.Agent.Conditions.Infos.{Info}
use gpu_node_health.Agent.Conditions.{all_conditions}

-- A condition as it is sent.
pub record Published : Type 0 where
  pub type : String
  pub status : String
  pub reason : String
  pub message : String
  pub last_heartbeat_time : String
  pub last_transition_time : Option String

pub record Publisher : Type 0 where
  pub last_status : Dict String
  pub transitions : Dict String

abbrev pub silent : Publisher
silent = record { last_status = []; transitions = [] }

abbrev pub condition_prefix : String
condition_prefix = "gpu-health.amd.io/"

abbrev pub status_text : Bool → String
status_text b = if b then "True" else "False"

-- Whether the status that stands in `_last_status` is this one.
abbrev pub is_same : Option String → String → Bool
is_same none status = false
is_same (some last) status = last =s= status

-- The two dicts after a condition has been seen with a status.
unfoldable pub observe : String → String → String → Publisher → Publisher
observe now name status p = record {
  last_status = put name status p.last_status;
  transitions =
      if is_same (get name p.last_status) status then p.transitions else put name now p.transitions;
}

-- The body of the loop: a condition that is not in the detail is skipped.
unfoldable pub publish_one : String → String → Option Info → Publisher → List Published × Publisher
unfolding observe
publish_one now name none p = ([], p)
publish_one now name (some info) p =
    let status = status_text info.active in
    let p' = observe now name status p in
    (
      record {
        type = condition_prefix <> name;
        status = status;
        reason = info.reason;
        message = take_chars 1024 info.message;
        last_heartbeat_time = now;
        last_transition_time = get name p'.transitions;
      }
          ∷ [],
      p',
    )

unfoldable pub publish_each :
    String → Dict Info → List String → Publisher → List Published × Publisher
unfolding publish_one
publish_each now detail [] p = ([], p)
publish_each now detail (name ∷ names) p =
    let (c, p') = publish_one now name (get name detail) p in
    let (cs, p'') = publish_each now detail names p' in (c ++ cs, p'')

-- What is sent: nothing before there is a detail.
unfoldable pub publish : String → Dict Info → Publisher → Option (List Published) × Publisher
unfolding publish_each
publish now [] p = (none, p)
publish now (d ∷ detail) p =
    let (conditions, p') = publish_each now (d ∷ detail) all_conditions p in (some conditions, p')
