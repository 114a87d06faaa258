-- ===== src/Guard/Loop/CarryOut.antt =====
-- What carrying out the decisions of guard/gpu_node_guard/main.py, `_run_nodes` and
-- `_run_exporters`, does to the cordon history and to the requests sent.
use gpu_node_health.Base.{
  ◌+◌, String, refl, sym, ◌∙◌, inl, inr, Option, none, some, List, [], ◌∷◌, arith, Bool-cases,
  if◌then◌else◌,
}
use gpu_node_health.Base.Int.{Instant}
use gpu_node_health.Guard.Policy.Types.{Action, cordon, noop, Decision}
use gpu_node_health.Guard.World.{cordon_call, Cluster, GuardConfig, World, node_kind, pure, ◌>>=◌}
use mathlib.Core.List.{append-nil}
use gpu_node_health.Guard.Loop.{
  event_reason, try_cordon, note, carry_out_as, carry_out, carry_out_all,
}
use gpu_node_health.Guard.Loop.Effects.{
  performed, performed-append, accepted_as, accepted, accepted_all, Carries, Carries-bind,
  Carries-cast, Carries-after, Carries-pure, emit_then,
}

module _ (parse_time : Option String → Option Instant) (stamp : Instant → String)
    (cfg : GuardConfig) (cluster : Cluster) (now : Instant) where
  try_cordon-Carries :
      (dec : Decision) (w : World)
      → Carries cluster now
          (if cluster.cordon_ok dec.node then 1 else 0)
          (if cluster.cordon_ok dec.node then 1 else 0)
          w
          (try_cordon parse_time stamp cfg cluster now dec w)
  unfolding try_cordon performed
  try_cordon-Carries dec w =
      let sent = performed-append cluster w.calls (cordon_call dec.node ∷ []) in
      elim (Bool-cases (cluster.cordon_ok dec.node)) [
        | inl e ↦ rw e (
            Carries-after cluster now 1 w _ _
              (record {
                history = refl;
                sent = sent ∙ rw e (omega arith);
                total = refl;
                errors = refl;
              })
              (emit_then parse_time stamp cfg cluster now 1 node_kind dec.node "GPUNodeCordoned"
                dec.message _))
        | inr e ↦ rw e (
            Carries-after cluster now 0 w _ _
              (record {
                history = sym (append-nil w.recent_cordons);
                sent = sent ∙ rw e (omega arith);
                total = refl;
                errors = refl;
              })
              (emit_then parse_time stamp cfg cluster now 0 node_kind dec.node "GPUCordonFailed" _
                _))
      ]

  note-Carries :
      (reason : Option String) (dec : Decision) (w : World)
      → Carries cluster now 0 0 w (note parse_time stamp cfg cluster now reason dec w)
  unfolding note
  note-Carries none dec w = Carries-pure cluster now 0 w
  note-Carries (some reason) dec w =
      emit_then parse_time stamp cfg cluster now 0 node_kind dec.node reason dec.message w

  carry_out_as-Carries :
      (action : Action) (dec : Decision) (w : World)
      → Carries cluster now
          (accepted_as cluster action dec)
          (accepted_as cluster action dec)
          w
          (carry_out_as parse_time stamp cfg cluster now action dec w)
  carry_out_as-Carries cordon dec w = try_cordon-Carries dec w
  carry_out_as-Carries noop dec w = note-Carries (event_reason dec.reason) dec w

  -- Carrying out the decisions performs the cordons that the API server accepts, one for each
  -- accepted decision, and records each of them in the history.
  pub carry_out_all-Carries :
      (decs : List Decision) (w : World)
      → Carries cluster now
          (accepted_all cluster decs)
          (accepted_all cluster decs)
          w
          (carry_out_all parse_time stamp cfg cluster now decs w)
  unfolding carry_out_all accepted_all carry_out
  carry_out_all-Carries [] w = Carries-pure cluster now 0 w
  carry_out_all-Carries (dec ∷ decs) w =
      let n = accepted cluster dec in
      let m = accepted_all cluster decs in
      let v = (carry_out parse_time stamp cfg cluster now dec w).1 in
      let all = carry_out_all parse_time stamp cfg cluster now decs in
      let first : Carries cluster now n n w (carry_out parse_time stamp cfg cluster now dec w) =
        carry_out_as-Carries dec.action dec w in
      let rest : Carries cluster now (n + m) m v ((all >>= λ k. pure (n + k)) v) =
        Carries-cast cluster now (m + 0) m v _ (omega arith) (
          Carries-bind cluster now all (λ k. pure (n + k)) m 0 v (carry_out_all-Carries decs v)
            (Carries-pure cluster now (n + m) _)) in
      Carries-bind cluster now (carry_out parse_time stamp cfg cluster now dec)
        (λ k. all >>= λ k'. pure (k + k')) n m w first rest
