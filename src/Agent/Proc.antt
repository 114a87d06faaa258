-- ===== src/Agent/Proc.antt =====
-- agent/gpu_health_agent/signals/dstate.py: `_read_stat`, `_read_wchan`, `_iter_tasks` and the list of the
-- processes. The files of /proc are an argument, and a text is what they decode to.
pub mod Stat
use gpu_node_health.Base.Bind.{◌>>=◌}
use gpu_node_health.Base.{
  ℕ, ◌+◌, String, Bool, false, Option, none, some, List, [], ◌∷◌, ◌++◌, ◌=s=◌, if◌then◌else◌, ltb,
}
use gpu_node_health.Base.Int.{Instant}
use gpu_node_health.Base.Chars.{is_digit, all_chars}
use gpu_node_health.Base.Lists.{length, drop_chars}
use gpu_node_health.Base.Strip.{strip}
use gpu_node_health.Base.Parse.{parse_int, number}
use gpu_node_health.Base.Cut.{find_char, rfind_char, slice, words, get_elem?}
use gpu_node_health.Agent.Census.{
  TaskStat, Wchan, denied, symbol, Task, Since, Census, CensusConfig, collect,
}

-- `_read_stat` from the two parentheses on.
abbrev pub between : String → ℕ → ℕ → Option TaskStat
between raw close open_paren =
    if ltb close open_paren
    then none
    else (let rest = words (drop_chars (close + 2) raw) in
        if ltb (length rest) 20 then none else (do
          state ← get_elem? rest 0
          field ← get_elem? rest 19
          starttime ← parse_int field
          some (record {
            comm = slice (open_paren + 1) close raw;
            state = state;
            starttime = starttime;
          })))

-- `_read_stat`; `none` is a file that cannot be read.
unfoldable pub read_stat : Option String → Option TaskStat
unfolding words slice parse_int rfind_char find_char
read_stat none = none
read_stat (some raw) = do
  close ← rfind_char ")" raw
  open_paren ← find_char "(" raw
  between raw close open_paren

-- What reading a wchan file gives. The other errors are the same to the source.
pub data Reading : Type 0 where
  contents : String → Reading
  permission_error : Reading
  other_error : Reading

-- `_read_wchan`
unfoldable pub read_wchan : Reading → Wchan
unfolding strip
read_wchan permission_error = denied
read_wchan other_error = symbol ""
read_wchan (contents text) =
    let value = strip text in if value =s= "0" then symbol "" else symbol value

-- The files of /proc. A list is `none` where the directory cannot be listed.
pub record Proc : Type 0 where
  pub entries : Option (List String)
  pub threads : String → Option (List String)
  pub stat : String → String → Option String
  pub wchan : String → String → Reading

-- `entry.isdigit()` and the number that it makes.
unfoldable pub process_id : String → Option ℕ
unfolding is_digit number
process_id entry = if all_chars is_digit entry then number entry false 0 else none

-- A thread as the loop of `collect` finds it.
abbrev pub task_of : Proc → String → ℕ → String → ℕ → Task
task_of proc pid p tid t = record {
  pid = p;
  tid = t;
  stat = read_stat (proc.stat pid tid);
  wchan = read_wchan (proc.wchan pid tid);
}

abbrev pub add_task : Option Task → List Task → List Task
add_task none tasks = tasks
add_task (some task) tasks = task ∷ tasks

-- `_iter_tasks` over the names of the threads.
unfoldable pub iter_tasks : Proc → String → ℕ → List String → List Task
unfolding read_stat read_wchan process_id
iter_tasks proc pid p [] = []
iter_tasks proc pid p (tid ∷ tids) =
    add_task (process_id tid >>= λ t. some (task_of proc pid p tid t)) (iter_tasks proc pid p tids)

abbrev pub names_of : Option (List String) → List String
names_of none = []
names_of (some names) = names

abbrev pub tasks_of : Proc → String → Option ℕ → List Task
tasks_of proc pid none = []
tasks_of proc pid (some p) = iter_tasks proc pid p (names_of (proc.threads pid))

-- The two loops of `collect` over the entries of /proc.
unfoldable pub scan_entries : Proc → List String → List Task
unfolding iter_tasks process_id
scan_entries proc [] = []
scan_entries proc (pid ∷ pids) = tasks_of proc pid (process_id pid) ++ scan_entries proc pids

abbrev pub scan : Proc → Option (List Task)
scan proc = proc.entries >>= λ entries. some (scan_entries proc entries)

-- `collect` over the files of /proc.
unfoldable pub census : CensusConfig → Instant → Proc → Since → Bool × Census
unfolding scan_entries
census cfg now proc since = collect cfg now since (scan proc)
