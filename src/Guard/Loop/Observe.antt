-- ===== src/Guard/Loop/Observe.antt =====
-- That guard/gpu_node_guard/main.py changes nothing in the cluster outside enforce mode.
use gpu_node_health.Base.{
  ℕ, String, Bool, true, false, ◌≡◌, ◌≢◌, refl, Option, none, some, List, [], ◌∷◌, ◌++◌, ◌+◌, arith,
  Bool-cases, inl, inr, ◌⊎◌, if◌then◌else◌,
}
use gpu_node_health.Base.Lists.{All, All-append, In}
use gpu_node_health.Base.Int.{Instant}
use gpu_node_health.Guard.Policy
use gpu_node_health.Guard.Policy.Types.{Node, Decision, Action, cordon, noop}
use gpu_node_health.Guard.Policy.Guardrails.{decide-Warranted}
use gpu_node_health.Guard.Supervisor
use gpu_node_health.Guard.Supervisor.{
  Pod, PodDecision, PodAction, delete, Supervisor, check_pod, check_pods, evaluate,
}
use gpu_node_health.Guard.Supervisor.Clock.{check_pod-DeleteWarranted}
use gpu_node_health.Guard.World.{
  Lease, Call, get_lease, list_nodes, list_pods, cordon_call, event_call, delete_call, Answer, ok,
  k8s_error, Cluster, GuardConfig, World, M, and_then, ◌>>=◌, pure, send, request, Kind, node_kind,
}
use gpu_node_health.Guard.Lease.{acquire_or_renew}
use gpu_node_health.Guard.Loop.{
  emit, carry_out, carry_out_all, note, nodes_with, run_nodes, carry_out_pod, carry_out_pods,
  exporters_with, run_exporters, with_lead, loop_once, round, event_reason, count_error,
  carry_out_as, event_of,
}
use gpu_node_health.Guard.Loop.Leader.{acquire_or_renew_lem, lease_calls, is_free}

-- A request that changes no node and no pod.
abbrev pub IsHarmless : Call → Type 0
IsHarmless (cordon_call name) = ⊥
IsHarmless (delete_call name) = ⊥
IsHarmless _ = Unit {0}

-- A step that sends harmless requests only.
abbrev pub Keeps : {A : Type 0} → M A → Type 0
Keeps m = (w : World) → All IsHarmless w.calls → All IsHarmless (m w).1.calls

and_then-Keeps :
    {A B : Type 0} (r : Answer A) (f : A → M B) (w : World)
    → ((a : A) → Keeps (f a))
    → All IsHarmless w.calls
    → All IsHarmless (and_then r f w).1.calls
and_then-Keeps (ok a) f w k h = k a w h
and_then-Keeps k8s_error f w k h = h

bind-Keeps :
    {A B : Type 0} (m : M A) (f : A → M B) → Keeps m → ((a : A) → Keeps (f a)) → Keeps (m >>= f)
bind-Keeps m f h k w e = and_then-Keeps (m w).0 f (m w).1 k (h w e)

send-Keeps : {A : Type 0} (call : Call) (r : Answer A) → IsHarmless call → Keeps (send call r)
send-Keeps call r h w e = All-append IsHarmless w.calls (call ∷ []) e (h, tt)

request-Keeps : (call : Call) (accepted : Bool) → IsHarmless call → Keeps (request call accepted)
request-Keeps call accepted h w e = All-append IsHarmless w.calls (call ∷ []) e (h, tt)

All-In : {A : Type 0} {P : A → Type 0} (xs : List A) → ((x : A) → In x xs → P x) → All P xs
All-In [] h = tt
All-In (x ∷ xs) h = (h x (inl refl), All-In xs (λ y m. h y (inr m)))

Action-cases : (a : Action) → (a ≡ cordon) ⊎ (a ≡ noop)
Action-cases cordon = inl refl
Action-cases noop = inr refl

PodAction-cases : (a : PodAction) → (a ≡ delete) ⊎ (a ≡ Supervisor.noop)
PodAction-cases delete = inl refl
PodAction-cases Supervisor.noop = inr refl

branch-Keeps : {A : Type 0} (b : Bool) (m n : M A) → Keeps m → Keeps n → Keeps (if b then m else n)
branch-Keeps true m n h k = h
branch-Keeps false m n h k = k

-- What is left of a step that sends nothing.
quiet : {A : Type 0} (a : A) → Keeps (pure a)
quiet a w e = e

module _ (parse_time : Option String → Option Instant) (stamp : Instant → String)
    (cfg : GuardConfig) (cluster : Cluster) (now : Instant) where
  emit-Keeps :
      (kind : Kind) (name reason message : String)
      → Keeps (emit parse_time stamp cfg cluster now kind name reason message)
  unfolding emit
  emit-Keeps kind name reason message w e =
      let event = event_of parse_time stamp cfg cluster now kind name reason message in
      let sent = All-append IsHarmless w.calls (event_call event ∷ []) e (tt, tt) in
      elim (Bool-cases (cluster.event_ok event)) [ inl b ↦ rw b sent | inr b ↦ rw b sent ]

  note-Keeps :
      (reason : Option String) (dec : Decision)
      → Keeps (note parse_time stamp cfg cluster now reason dec)
  unfolding note
  note-Keeps none dec = quiet {A = ℕ} 0
  note-Keeps (some reason) dec =
      bind-Keeps (emit parse_time stamp cfg cluster now node_kind dec.node reason dec.message)
        (λ _. pure 0) (emit-Keeps node_kind dec.node reason dec.message) (λ _. quiet {A = ℕ} 0)

  carry_out_as-Keeps :
      (a : Action) (dec : Decision)
      → a ≡ noop
      → Keeps (carry_out_as parse_time stamp cfg cluster now a dec)
  carry_out_as-Keeps cordon dec h = absurd (ground arith)
  carry_out_as-Keeps noop dec h = note-Keeps (event_reason dec.reason) dec

  carry_out_all-Keeps :
      (decs : List Decision)
      → All (λ dec. dec.action ≡ noop) decs
      → Keeps (carry_out_all parse_time stamp cfg cluster now decs)
  unfolding carry_out_all carry_out
  carry_out_all-Keeps [] h = quiet {A = ℕ} 0
  carry_out_all-Keeps (dec ∷ decs) h =
      let rest = carry_out_all parse_time stamp cfg cluster now decs in
      bind-Keeps (carry_out_as parse_time stamp cfg cluster now dec.action dec)
        (λ n. rest >>= λ m. pure (n + m)) (carry_out_as-Keeps dec.action dec h.0)
        (λ n.
          bind-Keeps rest (λ m. pure (n + m)) (carry_out_all-Keeps decs h.1) (λ m. quiet (n + m)))

  -- Outside enforce mode no decision is a cordon.
  idle_decisions :
      (nodes : List Node) (recent : List Instant)
      → cfg.policy.mode ≢ "enforce"
      → All (λ dec. dec.action ≡ noop) (Policy.decide parse_time now cfg.policy nodes recent)
  idle_decisions nodes recent h =
      All-In (Policy.decide parse_time now cfg.policy nodes recent) λ dec m.
        elim (Action-cases dec.action) [
          | inl c ↦
              let (node, _, _, w) =
                decide-Warranted parse_time now cfg.policy nodes recent dec m c in
              absurd (h w.enforcing)
          | inr e ↦ e
        ]

  nodes_with-Keeps :
      (answer : Answer (List Node))
      → cfg.policy.mode ≢ "enforce"
      → Keeps (nodes_with parse_time stamp cfg cluster now answer)
  unfolding nodes_with
  nodes_with-Keeps k8s_error h w e = All-append IsHarmless w.calls (list_nodes ∷ []) e (tt, tt)
  nodes_with-Keeps (ok nodes) h w e =
      let sent = All-append IsHarmless w.calls (list_nodes ∷ []) e (tt, tt) in
      let decs = Policy.decide parse_time now cfg.policy nodes w.recent_cordons in
      let v : World = record w { calls = w.calls ++ list_nodes ∷ [] } in
      let idle = idle_decisions nodes w.recent_cordons h in
      and_then-Keeps (carry_out_all parse_time stamp cfg cluster now decs v).0 _ _ (λ n u k. k)
        (carry_out_all-Keeps decs idle v sent)

  pods_idle :
      (s : Supervisor) (pods : List Pod)
      → cfg.supervision.mode ≢ "enforce"
      → All
          (λ dec. dec.action ≡ Supervisor.noop)
          (check_pods cfg.supervision cluster.scrape now s pods).0
  unfolding check_pods
  pods_idle s [] h = tt
  pods_idle s (pod ∷ pods) h =
      let s' = (check_pod cfg.supervision cluster.scrape now s pod).1 in
      let first = (check_pod cfg.supervision cluster.scrape now s pod).0 in
      let rest = pods_idle s' pods h in
      elim (PodAction-cases first.action) [
        | inl c ↦
            absurd
              (h ((check_pod-DeleteWarranted cfg.supervision cluster.scrape now s pod c).enforcing))
        | inr e ↦ (e, rest)
      ]

  carry_out_pods-Keeps :
      (decs : List PodDecision)
      → All (λ dec. dec.action ≡ Supervisor.noop) decs
      → Keeps (carry_out_pods parse_time stamp cfg cluster now decs)
  unfolding carry_out_pods carry_out_pod
  carry_out_pods-Keeps [] h w e = e
  carry_out_pods-Keeps (dec ∷ decs) h w e = rw (h.0) (carry_out_pods-Keeps decs h.1 w e)

  exporters_with-Keeps :
      (answer : Answer (List Pod))
      → cfg.supervision.mode ≢ "enforce"
      → Keeps (exporters_with parse_time stamp cfg cluster now answer)
  unfolding exporters_with evaluate
  exporters_with-Keeps k8s_error h w e = All-append IsHarmless w.calls (list_pods ∷ []) e (tt, tt)
  exporters_with-Keeps (ok pods) h w e =
      let sent = All-append IsHarmless w.calls (list_pods ∷ []) e (tt, tt) in
      let (decs, supervisor) = evaluate cfg.supervision cluster.scrape now w.supervisor pods in
      let v : World = record w { supervisor = supervisor; calls = w.calls ++ list_pods ∷ [] } in
      and_then-Keeps (carry_out_pods parse_time stamp cfg cluster now decs v).0 _ _ (λ n u k. k)
        (carry_out_pods-Keeps decs (pods_idle w.supervisor pods h) v sent)

  with_lead-Keeps :
      (leads : Bool)
      → cfg.policy.mode ≢ "enforce"
      → cfg.supervision.mode ≢ "enforce"
      → Keeps (with_lead parse_time stamp cfg cluster now leads)
  unfolding run_nodes run_exporters
  with_lead-Keeps false h k w e = e
  with_lead-Keeps true h k w e =
      let nodes = nodes_with parse_time stamp cfg cluster now cluster.nodes in
      let exporters = exporters_with parse_time stamp cfg cluster now cluster.pods in
      and_then-Keeps (nodes w).0 _ (nodes w).1
        (λ run v d.
          and_then-Keeps (exporters v).0 _ (exporters v).1 (λ decs u c. c)
            (exporters_with-Keeps cluster.pods k v d))
        (nodes_with-Keeps cluster.nodes h w e)

  lease_calls-IsHarmless :
      (answer : Answer (Option Lease))
      → All IsHarmless (lease_calls parse_time stamp cfg cluster now answer)
  lease_calls-IsHarmless k8s_error = tt
  lease_calls-IsHarmless (ok none) = (tt, tt)
  lease_calls-IsHarmless (ok (some lease)) =
      elim (Bool-cases (is_free parse_time stamp cfg cluster now (some lease))) [
        | inl free ↦ rw free (tt, tt)
        | inr held ↦ rw held tt
      ]

  lease-Keeps : Keeps (acquire_or_renew parse_time stamp cfg cluster now)
  lease-Keeps w e =
      let writes = lease_calls parse_time stamp cfg cluster now cluster.lease in
      let asked = All-append IsHarmless w.calls (get_lease ∷ []) e (tt, tt) in
      rw (acquire_or_renew_lem parse_time stamp cfg cluster now w) (
        All-append IsHarmless (w.calls ++ get_lease ∷ []) writes asked
          (lease_calls-IsHarmless cluster.lease))

  loop_once-Keeps :
      cfg.policy.mode ≢ "enforce"
      → cfg.supervision.mode ≢ "enforce"
      → Keeps (loop_once parse_time stamp cfg cluster now)
  unfolding loop_once
  loop_once-Keeps h k w e =
      let lease = acquire_or_renew parse_time stamp cfg cluster now in
      and_then-Keeps (lease w).0 _ (lease w).1 (λ leads. with_lead-Keeps leads h k)
        (lease-Keeps w e)

  calls-count_error :
      (r : Answer (Unit {0})) (w : World)
      → (count_error parse_time stamp cfg cluster now r w).calls ≡ w.calls
  calls-count_error (ok u) w = refl
  calls-count_error k8s_error w = refl

  pub round-Keeps :
      (w : World)
      → cfg.policy.mode ≢ "enforce"
      → cfg.supervision.mode ≢ "enforce"
      → All IsHarmless w.calls
      → All IsHarmless (round parse_time stamp cfg cluster now w).calls
  unfolding round
  round-Keeps w h k e =
      let (r, w') = loop_once parse_time stamp cfg cluster now w in
      rw (calls-count_error r w') (loop_once-Keeps h k w e)
