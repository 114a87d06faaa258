-- ===== src/Guard/Loop/Refusals.antt =====
-- The Events that guard/gpu_node_guard/main.py, `_run_nodes`, writes about refusals.
use gpu_node_health.Base.{
  String, ◌≡◌, ◌≢◌, ap, ◌∙◌, sym, Option, none, some, List, [], ◌∷◌, ◌++◌, arith, Bool-cases, inl,
  inr,
}
use gpu_node_health.Base.Int.{ℤ, Instant}
use gpu_node_health.Guard.Policy.Types.{
  noop, Reason, out_of_scope, observe_mode, cordoned, Node, Decision, PolicyConfig,
}
use mathlib.Core.List.{append-nil}
use gpu_node_health.Guard.Policy.{decide_node}
use gpu_node_health.Guard.Policy.DryRun.{observing, as_observed, dry_run_complete}
use gpu_node_health.Guard.World.{Call, event_call, node_kind, Cluster, GuardConfig, World}
use gpu_node_health.Guard.Loop.{event_of, event_reason, emit, note, carry_out_as, carry_out}

module _ (parse_time : Option String → Option Instant) (stamp : Instant → String)
    (cfg : GuardConfig) (cluster : Cluster) (now : Instant) where
  -- The requests that a refusal with the reason causes.
  abbrev pub refusal_calls : Option String → Decision → List Call
  refusal_calls none dec = []
  refusal_calls (some reason) dec =
      event_call (event_of parse_time stamp cfg cluster now node_kind dec.node reason dec.message)
      ∷ []

  calls-note :
      (reason : Option String) (dec : Decision) (w : World)
      → (note parse_time stamp cfg cluster now reason dec w).1.calls
        ≡ w.calls ++ refusal_calls reason dec
  unfolding note emit
  calls-note none dec w = sym (append-nil w.calls)
  calls-note (some reason) dec w =
      let event = event_of parse_time stamp cfg cluster now node_kind dec.node reason dec.message in
      elim (Bool-cases (cluster.event_ok event)) [ inl e ↦ rw e | inr e ↦ rw e ]

  -- A decision not to cordon sends exactly the Event for its reason, and nothing where the reason has
  -- no Event.
  calls-carry_out :
      (dec : Decision) (w : World)
      → dec.action ≡ noop
      → (carry_out parse_time stamp cfg cluster now dec w).1.calls
        ≡ w.calls ++ refusal_calls (event_reason dec.reason) dec
  unfolding carry_out
  calls-carry_out dec w e =
      ap (λ a. (carry_out_as parse_time stamp cfg cluster now a dec w).1.calls) e
      ∙ calls-note (event_reason dec.reason) dec w

module _ (parse_time : Option String → Option Instant) (stamp : Instant → String)
    (cfg : GuardConfig) (cluster : Cluster) (now : Instant) where
  noop_of_reason :
      (policy : PolicyConfig) (nodes : List Node) (node : Node) (budget : ℤ) (r : Reason)
      → (decide_node parse_time now policy nodes node budget).0.reason ≡ r
      → r ≢ cordoned
      → (decide_node parse_time now policy nodes node budget).0.action ≡ noop
  unfolding decide_node
  noop_of_reason policy nodes node budget r e n = ground arith

  -- A node that every guardrail lets through and only the scope keeps in service: in enforce mode its
  -- decision sends nothing at all, while observe mode writes the Event GPUCordonWouldHave for it.
  pub scope_refusal_silent :
      (nodes : List Node) (node : Node) (budget : ℤ) (w : World)
      → cfg.policy.mode ≡ "enforce"
      → (decide_node parse_time now cfg.policy nodes node budget).0.reason ≡ out_of_scope
      → let dec = (decide_node parse_time now cfg.policy nodes node budget).0 in
        let would = (decide_node parse_time now (observing cfg.policy) nodes node budget).0 in
        ((carry_out parse_time stamp cfg cluster now dec w).1.calls ≡ w.calls)
        × ((carry_out parse_time stamp cfg cluster now would w).1.calls
            ≡ w.calls
              ++ refusal_calls parse_time stamp cfg cluster now (some "GPUCordonWouldHave") would)
  unfolding event_reason
  scope_refusal_silent nodes node budget w m e =
      let dec = (decide_node parse_time now cfg.policy nodes node budget).0 in
      let would = (decide_node parse_time now (observing cfg.policy) nodes node budget).0 in
      let observed : would.reason ≡ observe_mode =
        dry_run_complete parse_time now cfg.policy nodes node budget m ∙ ap as_observed e in
      (
        calls-carry_out parse_time stamp cfg cluster now dec w
              (noop_of_reason cfg.policy nodes node budget out_of_scope e (λ p. cc))
            ∙ ap
                (λ r.
                  w.calls ++ refusal_calls parse_time stamp cfg cluster now (event_reason r) dec)
                e
            ∙ append-nil w.calls,
        calls-carry_out parse_time stamp cfg cluster now would w (
              noop_of_reason (observing cfg.policy) nodes node budget observe_mode observed
                (λ p. cc))
            ∙ ap
                (λ r.
                  w.calls ++ refusal_calls parse_time stamp cfg cluster now (event_reason r) would)
                observed,
      )
