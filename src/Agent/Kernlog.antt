-- ===== src/Agent/Kernlog.antt =====
-- agent/gpu_health_agent/signals/kernlog.py: `KernelLogWatcher`. The regular expressions are a
-- parameter (`search`), and so are the clock and what the file system answers. Positions count
-- characters, and a line ends at a newline character only.
pub mod Rules
pub mod Tail
pub mod Watcher
pub mod Reopen
use gpu_node_health.Base.{
  ℕ, zero, suc, ◌+◌, String, Bool, true, false, not, ◌&&◌, ◌||◌, Option, none, some, List, [], ◌∷◌,
  map, ltb, ◌==◌, length, ◌<>◌, ◌=s=◌, chars, drop_chars, last_chars, if◌then◌else◌,
}
use Prim.Native.Char.{Char, code}
use gpu_node_health.Base.Int.{Instant}
use gpu_node_health.Base.Dict.{Dict, get, put, default_to}

pub data Severity : Type 0 where
  fatal warning patch : Severity

-- `RULES`, without the patterns.
abbrev pub rules : List (String × Severity)
rules =
    ("mes_unrecoverable", fatal)
    ∷ ("gpu_reset_begin", fatal)
    ∷ ("vram_lost", fatal)
    ∷ ("gpu_workqueue_blocked", fatal)
    ∷ ("sched_killed_entity", fatal)
    ∷ ("sdma_queue_exhausted", warning)
    ∷ ("ring_timeout", warning)
    ∷ ("job_timedout", warning)
    ∷ ("gpu_reset_succeeded", warning)
    ∷ ("vm_fault", warning)
    ∷ ("other_task_blocked", warning)
    ∷ ("d4_watchdog", patch)
    ∷ ("d4_map_evicted", patch)
    ∷ ("d1_remediate", patch)
    ∷ ("d9_ring_state", patch)
    ∷ ("d7_reap", patch)
    ∷ ("ttm_giving_up", patch)
    ∷ ("ttm_delete_blocked", patch)
    ∷ ("d3_failover", patch)
    ∷ []

-- `_counts` and `_last_hit`
pub record Tally : Type 0 where
  pub counts : Dict ℕ
  pub last_hit : Dict (Instant × String)

-- Every rule starts at 0.
unfoldable pub zero_counts : List (String × Severity) → Dict ℕ
zero_counts [] = []
zero_counts ((name, sev) ∷ rest) = (name, 0) ∷ zero_counts rest

abbrev pub no_hits : Tally
no_hits = record { counts = zero_counts rules; last_hit = [] }

module _ (search : String → String → Bool) (now : Instant) where
  -- The loop of `_match`: the first rule that hits is counted and ends it.
  unfoldable pub match_rules : List (String × Severity) → String → Tally → Tally
  match_rules [] line t = t
  match_rules ((name, sev) ∷ rest) line t =
      let other = match_rules rest line t in
      if search name line
      then record {
        counts = put name (suc (default_to 0 (get name t.counts))) t.counts;
        last_hit = put name (now, last_chars 400 line) t.last_hit;
      }
      else other

  unfoldable pub match_line : String → Tally → Tally
  unfolding match_rules
  match_line = match_rules rules

  unfoldable pub match_lines : List String → Tally → Tally
  match_lines [] t = t
  match_lines (line ∷ lines) t = match_lines lines (match_line line t)

abbrev is_newline : Char → Bool
is_newline c = code c == 10

-- The lines that `readline` returns until the end of the file, each without its newline; `line` is
-- what has been read of the current one.
unfoldable pub lines_from : String → String → List String
lines_from line String.[] = if line =s= "" then [] else line ∷ []
lines_from line (String.◌∷◌ c s) = elim (is_newline c) [
  | true ↦ line ∷ lines_from "" s
  | false ↦ lines_from (line <> String.◌∷◌ c String.[]) s
]

-- `st_dev` with `st_ino` is one number here.
pub record Handle : Type 0 where
  pub inode : ℕ
  pub position : ℕ
  pub closed : Bool

pub data Stat : Type 0 where
  found : ℕ → Stat
  file_not_found os_error : Stat

-- What the file system answers to one call of `_pump`: `content` is what a file holds then, and
-- `opened` is the file that `open` finds, which may be another than that of the `stat` before it.
pub record Disk : Type 0 where
  pub stat : Stat
  pub opened : Option ℕ
  pub content : ℕ → String

-- How a call ends. `value_error` is the exception of `tell` on a closed file.
pub data Ending : Type 0 where
  pumped missing failed value_error : Ending

-- The state of one path: its entry in `handles`, and the tally of the watcher.
pub record Watch : Type 0 where
  pub handle : Option Handle
  pub tally : Tally

module _ (search : String → String → Bool) (from_start : Bool) (disk : Disk) (now : Instant) where
  -- `_consume`
  unfoldable pub consume : Handle → Tally → Handle × Tally
  unfolding match_lines lines_from
  consume h t =
      let text = disk.content h.inode in
      (
        record h { position = if ltb h.position (chars text) then chars text else h.position },
        match_lines search now (lines_from "" (drop_chars h.position text)) t,
      )

  abbrev pub read_on : Handle → Tally → Ending × Watch
  read_on h t = let (h', t') = consume h t in (pumped, record { handle = some h'; tally = t' })

  -- From the `open` on; `old` is the entry that stays where it fails.
  unfoldable pub open_file : Option ℕ → Option Handle → Tally → Ending × Watch
  unfolding consume
  open_file none old t = (failed, record { handle = old; tally = t })
  open_file (some inode) none t =
      let position = if from_start then 0 else chars (disk.content inode) in
      read_on (record { inode = inode; position = position; closed = false }) t
  open_file (some inode) (some h) t =
      read_on (record { inode = inode; position = 0; closed = false }) t

  -- The branch of a file that has been rotated or truncated: `close`, then `open`.
  abbrev pub reopen : Bool → Handle → Tally → Ending × Watch
  reopen rotated h t =
      let drained = (consume h t).1 in
      open_file disk.opened (some (record h { closed = true })) (if rotated then drained else t)

  unfoldable pub pump_found : ℕ → Option Handle → Tally → Ending × Watch
  unfolding open_file consume
  pump_found inode none t = open_file disk.opened none t
  pump_found inode (some h) t =
      let rotated = not (h.inode == inode) in
      let truncated = ltb (chars (disk.content inode)) h.position in
      if h.closed
      then (value_error, record { handle = some h; tally = t })
      else if rotated || truncated
      then reopen rotated h t
      else read_on h t

  abbrev pub pump_as : Stat → Watch → Ending × Watch
  pump_as (found inode) w = pump_found inode w.handle w.tally
  pump_as file_not_found w = (missing, w)
  pump_as os_error w = (failed, w)

  unfoldable pub pump : Watch → Ending × Watch
  unfolding pump_found
  pump = pump_as disk.stat

-- What `_run` records of a path in `_files_ok`; `none` is the exception that ends the thread, which
-- no `except` of the loop catches.
abbrev pub file_ok : Ending → Option Bool
file_ok pumped = some true
file_ok missing = some false
file_ok failed = some false
file_ok value_error = none
