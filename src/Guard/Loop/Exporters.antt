-- ===== src/Guard/Loop/Exporters.antt =====
-- `_run_exporters` of guard/gpu_node_guard/main.py cordons nothing.
use gpu_node_health.Base.{String, ◌≡◌, refl, inl, inr, Bool-cases, Option, List, [], ◌∷◌, ◌++◌}
use gpu_node_health.Base.Int.{Instant}
use gpu_node_health.Guard.Supervisor
use gpu_node_health.Guard.Supervisor.{Pod, PodAction, delete, PodDecision}
use gpu_node_health.Guard.World.{
  pod_kind, delete_call, list_pods, Answer, ok, k8s_error, Cluster, GuardConfig, World, pure,
}
use gpu_node_health.Guard.Loop.{
  try_delete, carry_out_pod_as, carry_out_pod, carry_out_pods, exporters_with,
}
use gpu_node_health.Guard.Loop.Effects.{
  Cordons, Cordons-request, Carries, Carries-bind, Carries-after, Carries-pure, emit-Cordons,
}

module _ (parse_time : Option String → Option Instant) (stamp : Instant → String)
    (cfg : GuardConfig) (cluster : Cluster) (now : Instant) where
  try_delete-Carries :
      (dec : PodDecision) (w : World)
      → Carries cluster now tt 0 w (try_delete parse_time stamp cfg cluster now dec w)
  unfolding try_delete
  try_delete-Carries dec w =
      let sent = Cordons-request cluster now (delete_call dec.pod) refl refl refl refl refl in
      elim (Bool-cases (cluster.delete_ok dec.pod)) [
        | inl e ↦ rw e (
            Carries-after cluster now 0 w _ _ sent (
              emit-Cordons parse_time stamp cfg cluster now pod_kind dec.pod "ExporterPodDeleted"
                dec.message _))
        | inr e ↦ rw e (refl, sent)
      ]

  carry_out_pod_as-Carries :
      (action : PodAction) (dec : PodDecision) (w : World)
      → Carries cluster now tt 0 w (carry_out_pod_as parse_time stamp cfg cluster now action dec w)
  carry_out_pod_as-Carries delete dec w = try_delete-Carries dec w
  carry_out_pod_as-Carries Supervisor.noop dec w = Carries-pure cluster now tt w

  carry_out_pods-Carries :
      (decs : List PodDecision) (w : World)
      → Carries cluster now tt 0 w (carry_out_pods parse_time stamp cfg cluster now decs w)
  unfolding carry_out_pods carry_out_pod
  carry_out_pods-Carries [] w = Carries-pure cluster now tt w
  carry_out_pods-Carries (dec ∷ decs) w =
      Carries-bind cluster now (carry_out_pod parse_time stamp cfg cluster now dec)
        (λ _. carry_out_pods parse_time stamp cfg cluster now decs) 0 0 w
        (carry_out_pod_as-Carries dec.action dec w)
        (carry_out_pods-Carries decs (carry_out_pod parse_time stamp cfg cluster now dec w).1)

  -- The decisions that a pass over the exporters ends with, if it does not end with an error.
  abbrev pub exporter_result : Answer (List Pod) → World → Answer (List PodDecision)
  exporter_result k8s_error w = k8s_error
  exporter_result (ok pods) w =
      ok (Supervisor.evaluate cfg.supervision cluster.scrape now w.supervisor pods).0

  -- The pass over the exporters ends without an error exactly if the pods can be listed, and
  -- changes neither the cordon history nor the counters, either way.
  pub exporters_with-Cordons :
      (answer : Answer (List Pod)) (w : World)
      → let r = exporters_with parse_time stamp cfg cluster now answer w in
        (r.0 ≡ exporter_result answer w) × Cordons cluster now 0 w r.1
  unfolding exporters_with
  exporters_with-Cordons k8s_error w =
      (refl, Cordons-request cluster now list_pods refl refl refl refl refl)
  exporters_with-Cordons (ok pods) w =
      let (decisions, supervisor) =
        Supervisor.evaluate cfg.supervision cluster.scrape now w.supervisor pods in
      let v : World = record w { supervisor = supervisor; calls = w.calls ++ list_pods ∷ [] } in
      Carries-after cluster now 0 w v _
        (Cordons-request cluster now list_pods refl refl refl refl refl)
        (Carries-bind cluster now (carry_out_pods parse_time stamp cfg cluster now decisions)
          (λ _. pure decisions) 0 0 v (carry_out_pods-Carries decisions v)
          (Carries-pure cluster now decisions _))
