-- ===== src/Guard/Policy/Messages.antt =====
-- The texts of the decisions of guard/gpu_node_guard/policy.py, `decide`.
use gpu_node_health.Base.{ℕ, String, ◌<>◌}
use gpu_node_health.Base.Show.{show_ℕ, show_ℤ}
use gpu_node_health.Guard.Policy.Types.{Level, l1, l2, l3, PolicyConfig}

unfoldable pub level_text : Level → String
level_text l1 = "L1"
level_text l2 = "L2"
level_text l3 = "L3"

unfoldable pub too_young_text : PolicyConfig → String → String
too_young_text cfg ctype =
    ctype
    <> (" is active but has held for less than " <> (show_ℤ cfg.condition_min_age_seconds <> "s"))

unfoldable pub report_only_text : Level → String → String → String
unfolding level_text
report_only_text level ctype cmsg =
    ctype
    <> (" is a "
        <> (level_text level
            <> (" signal: reported, never cordoned. A single failed card does not justify removing 8. ("
                <> (cmsg <> ")"))))

unfoldable pub stale_text : String → String
stale_text ctype =
    ctype
    <> " is active but so is GPUHealthDataStale - the agent says its own data is unreliable, so this is not actioned. This needs a human, not a cordon."

unfoldable pub already_cordoned_text : String → String
already_cordoned_text ctype = ctype <> " is active and the node is already unschedulable"

unfoldable pub capacity_text : PolicyConfig → String → String → String → ℕ → String
capacity_text cfg name ctype cmsg remaining =
    ctype
    <> (" is active on "
        <> (name
            <> (", but cordoning it would leave "
                <> (show_ℕ remaining
                    <> (" healthy schedulable node(s), below the floor of "
                        <> (show_ℤ cfg.min_healthy_nodes
                            <> (". Refusing, and alerting instead. (" <> (cmsg <> ")"))))))))

unfoldable pub rate_limit_text : PolicyConfig → String → String → String → String
rate_limit_text cfg name ctype cmsg =
    ctype
    <> (" is active on "
        <> (name
            <> (", but "
                <> (show_ℤ cfg.max_cordons_per_window
                    <> (" cordon(s) already happened within "
                        <> (show_ℤ cfg.rate_limit_window_seconds
                            <> ("s. More than that at once is a fleet-wide event, which is a human's call. ("
                                <> (cmsg <> ")"))))))))

unfoldable pub observe_text : String → String → String → String
observe_text name ctype cmsg =
    "WOULD CORDON "
    <> (name
        <> (": "
            <> (ctype
                <> (" active and every guardrail passed. GUARD_MODE is observe, so nothing was done. ("
                    <> (cmsg <> ")")))))

unfoldable pub out_of_scope_text : String → String → String → String
out_of_scope_text name ctype cmsg =
    "WOULD CORDON "
    <> (name
        <> (": "
            <> (ctype
                <> (" active and every guardrail passed, and GUARD_MODE is enforce - but "
                    <> (name
                        <> (" is not in GUARD_ENFORCE_NODES, so nothing was done. ("
                            <> (cmsg <> ")")))))))

unfoldable pub cordoned_text : String → String → String → String
cordoned_text name ctype cmsg =
    "cordoned "
    <> (name
        <> (": "
            <> (ctype
                <> (" active. New pods will not be scheduled here. Existing pods are left alone - this guard never drains, and never uncordons. ("
                    <> (cmsg <> ")")))))
