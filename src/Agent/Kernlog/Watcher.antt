-- ===== src/Agent/Kernlog/Watcher.antt =====
-- agent/gpu_health_agent/signals/kernlog.py: `KernelLogWatcher._run` over all its paths, and what it hands
-- out.
use gpu_node_health.Base.{
  ℕ, ◌+◌, String, Bool, true, false, Option, none, some, List, [], ◌∷◌, if◌then◌else◌,
}
use gpu_node_health.Base.Int.{Instant}
use gpu_node_health.Base.Dict.{Dict, get, put, default_to}
use gpu_node_health.Agent.Signals.{Kernlog}
use gpu_node_health.Agent.Kernlog.{
  Severity, fatal, warning, patch, rules, Tally, no_hits, Handle, Disk, Watch, pump, file_ok,
}

pub record Watcher : Type 0 where
  pub handles : Dict Handle
  pub tally : Tally
  pub files_ok : Dict Bool

abbrev pub fresh_watcher : Watcher
fresh_watcher = record { handles = []; tally = no_hits; files_ok = [] }

abbrev pub keep_handle : String → Option Handle → Dict Handle → Dict Handle
keep_handle path none handles = handles
keep_handle path (some h) handles = put path h handles

-- What a call for a path leaves. The flag says whether the thread still runs.
abbrev pub after_pump : String → Watch → Option Bool → Watcher → Bool × Watcher
after_pump path w none s =
    (false, record s { handles = keep_handle path w.handle s.handles; tally = w.tally })
after_pump path w (some ok) s = (
  true,
  record {
    handles = keep_handle path w.handle s.handles;
    tally = w.tally;
    files_ok = put path ok s.files_ok;
  },
)

module _ (search : String → String → Bool) (from_start : Bool) (now : Instant) where
  -- The body of the loop over the paths.
  unfoldable pub run_path : String → Disk → Watcher → Bool × Watcher
  run_path path disk s =
      let (ending, w) =
        pump search from_start disk now (record { handle = get path s.handles; tally = s.tally }) in
      after_pump path w (file_ok ending) s

  -- One pass over the paths; an exception that is not caught ends it, and the thread with it.
  unfoldable pub run_pass : List (String × Disk) → Watcher → Bool × Watcher
  unfolding run_path
  run_pass [] s = (true, s)
  run_pass ((path, disk) ∷ rest) s =
      let (runs, s') = run_path path disk s in
      let further = run_pass rest s' in if runs then further else (false, s')

-- `snapshot`
abbrev pub snapshot : Watcher → Kernlog
snapshot s = record { counts = s.tally.counts; last_hit = s.tally.last_hit; files_ok = s.files_ok }

-- `severity_counts`
pub record SeverityCounts : Type 0 where
  pub fatal_hits : ℕ
  pub warning_hits : ℕ
  pub patch_hits : ℕ

abbrev add_hits : Severity → ℕ → SeverityCounts → SeverityCounts
add_hits fatal n c = record c { fatal_hits = c.fatal_hits + n }
add_hits warning n c = record c { warning_hits = c.warning_hits + n }
add_hits patch n c = record c { patch_hits = c.patch_hits + n }

unfoldable pub severities_from : List (String × Severity) → Dict ℕ → SeverityCounts → SeverityCounts
severities_from [] counts c = c
severities_from ((name, sev) ∷ rest) counts c =
    severities_from rest counts (add_hits sev (default_to 0 (get name counts)) c)

unfoldable pub severity_counts : Watcher → SeverityCounts
unfolding severities_from
severity_counts s =
    severities_from rules s.tally.counts
      (record { fatal_hits = 0; warning_hits = 0; patch_hits = 0 })
