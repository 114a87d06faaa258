-- ===== src/Guard/World.antt =====
-- The mutable state of guard/gpu_node_guard/main.py and the calls that it makes. A method is a
-- function from the state before to its outcome and the state after; what was written before a
-- `K8sError` stays written. The answers of the API server and of the exporters are a parameter.
use gpu_node_health.Base.{ℕ, String, Bool, Option, List, [], ◌∷◌, ◌++◌}
use gpu_node_health.Base.Int.{ℤ, Instant}
use gpu_node_health.Guard.Policy.Types.{Node, Decision, NodeState, PolicyConfig}
use gpu_node_health.Guard.Supervisor.{Pod, PodDecision, Supervisor, SupervisorConfig}

-- `.spec` of a Lease. What else a Lease holds is sent back as it was read.
pub record Lease : Type 0 where
  pub holder : Option String
  pub renew_time : Option String
  pub acquire_time : Option String
  pub duration_seconds : ℤ

pub data Kind : Type 0 where
  node_kind pod_kind : Kind

-- An Event as it is posted.
pub record Event : Type 0 where
  pub kind : Kind
  pub namespace : String
  pub name : String
  pub reason : String
  pub message : String

-- The requests that `K8sClient` sends for the guard.
pub data Call : Type 0 where
  get_lease list_nodes list_pods : Call
  create_lease update_lease : Lease → Call
  cordon_call : String → Call
  event_call : Event → Call
  delete_call : String → Call

pub data Answer (A : Type 0) : Type 0 where
  ok : A → Answer A
  k8s_error : Answer A

-- What the API server and the exporters answer in one pass of the loop. `cordon_ok` and the other
-- tests say whether a request to change an object is accepted, and `error_text` is the text of the
-- `K8sError` otherwise.
pub record Cluster : Type 0 where
  pub lease : Answer (Option Lease)
  pub create_ok : Bool
  pub update_ok : Bool
  pub nodes : Answer (List Node)
  pub cordon_ok : String → Bool
  pub event_ok : Event → Bool
  pub pods : Answer (List Pod)
  pub delete_ok : String → Bool
  pub scrape : String → Bool
  pub error_text : Call → String

-- `Config`, as far as the loop reads it. Durations are in seconds.
pub record GuardConfig : Type 0 where
  pub policy : PolicyConfig
  pub supervision : SupervisorConfig
  pub namespace : String
  pub exporter_namespace : String
  pub identity : String
  pub lease_duration_seconds : ℤ

-- `Guard._state`, without the two values of the configuration that never change.
pub record GuardState : Type 0 where
  pub is_leader : Bool
  pub last_loop : Instant
  pub loop_errors : ℕ
  pub event_errors : ℕ
  pub nodes_watched : ℕ
  pub healthy_capacity : ℕ
  pub cordons_total : ℕ
  pub decisions : List Decision
  pub exporter_decisions : List PodDecision
  pub node_states : List NodeState

-- The guard's objects, and the requests sent so far, oldest first.
pub record World : Type 0 where
  pub leading : Bool
  pub recent_cordons : List Instant
  pub supervisor : Supervisor
  pub state : GuardState
  pub calls : List Call

abbrev pub M : Type 0 → Type 0
M A = World → Answer A × World

abbrev pub and_then : {A B : Type 0} → Answer A → (A → M B) → M B
and_then (ok a) f w = f a w
and_then k8s_error f w = (k8s_error, w)

infixl 5 ◌>>=◌ ◌>>◌
abbrev pub ◌>>=◌ : {A B : Type 0} → M A → (A → M B) → M B
m >>= f = λ w. let (r, w') = m w in and_then r f w'

abbrev pub ◌>>◌ : {A B : Type 0} → M A → M B → M B
m >> n = m >>= λ _. n

abbrev pub pure : {A : Type 0} → A → M A
pure a w = (ok a, w)

abbrev pub modify : (World → World) → M (Unit {0})
modify f w = (ok tt, f w)

-- Sends a request whose answer is `r`.
abbrev pub send : {A : Type 0} → Call → Answer A → M A
send call r w = (r, record w { calls = w.calls ++ call ∷ [] })

-- Sends a request that is accepted or not.
abbrev pub request : Call → Bool → M Bool
request call accepted w = (ok accepted, record w { calls = w.calls ++ call ∷ [] })
