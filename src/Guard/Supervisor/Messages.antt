-- ===== src/Guard/Supervisor/Messages.antt =====
-- The texts of the decisions of guard/gpu_node_guard/supervisor.py, `evaluate`.
use gpu_node_health.Base.{String, ◌<>◌, Option, none, some}
use gpu_node_health.Base.Int.{ℤ, Instant}
use gpu_node_health.Base.Show.{show_ℤ, show_seconds}

-- A missing phase prints as Python's `None`.
unfoldable pub not_running_text : Option String → String
not_running_text none = "phase=None"
not_running_text (some phase) = "phase=" <> phase

unfoldable pub reachable_text : String → String
reachable_text url = url <> " answered"

unfoldable pub within_grace_text : Instant → ℤ → String
within_grace_text elapsed grace =
    "unreachable for " <> (show_seconds elapsed <> ("s, grace is " <> (show_ℤ grace <> "s")))

unfoldable pub cooldown_text : String → Instant → Instant → String
cooldown_text node elapsed since_delete =
    "unreachable for "
    <> (show_seconds elapsed
        <> ("s but an exporter pod on "
            <> (node
                <> (" was already deleted "
                    <> (show_seconds since_delete
                        <> "s ago. Deleting again would be a loop - on a node wedged in the driver the delete cannot complete at all.")))))

unfoldable pub disabled_text : Instant → String
disabled_text elapsed =
    "unreachable for "
    <> (show_seconds elapsed
        <> "s. Supervision is off, so nothing was deleted - this pod belongs to the AMD operator, not to us.")

unfoldable pub would_delete_text : String → Instant → String
would_delete_text name elapsed =
    "WOULD DELETE "
    <> (name <> (": unreachable for " <> (show_seconds elapsed <> "s. GUARD_MODE is observe.")))

unfoldable pub deleted_text : String → String → Instant → String
deleted_text name node elapsed =
    "deleting "
    <> (name
        <> (" on "
            <> (node
                <> (": /metrics unreachable for "
                    <> (show_seconds elapsed
                        <> "s. The delete is an attempt, not a cure - the unreachable clock keeps running until a scrape succeeds.")))))
