-- ===== src/Agent/Census.antt =====
-- agent/gpu_health_agent/signals/dstate.py: `DStateCensus`. What /proc shows of each thread is an
-- argument: its stat line as `_read_stat` parses it, and its wchan as `_read_wchan` reads it. The clocks of
-- the dict `_since` are an association list.
pub mod Clocks
pub mod Counts
use gpu_node_health.Base.{
  ℕ, zero, suc, ◌+◌, String, Bool, true, false, not, ◌&&◌, ◌||◌, Option, none, some, List, [], ◌∷◌,
  ◌++◌, ◌==◌, ◌=s=◌, take, if◌then◌else◌,
}
use gpu_node_health.Base.Int.{ℤ, pos, ◌-ℤ◌, ltb_ℤ, eqb_ℤ, Instant, seconds}
use gpu_node_health.Base.Show.{round_tenths}
use gpu_node_health.Base.Dict.{default_to}
use gpu_node_health.Base.Text.{starts_with, is_part}

-- `(comm, state, starttime)`
pub record TaskStat : Type 0 where
  pub comm : String
  pub state : String
  pub starttime : ℤ

-- `denied` is WCHAN_DENIED.
pub data Wchan : Type 0 where
  denied : Wchan
  symbol : String → Wchan

-- A thread as the scan finds it; one that is gone has no stat.
pub record Task : Type 0 where
  pub pid : ℕ
  pub tid : ℕ
  pub stat : Option TaskStat
  pub wchan : Wchan

-- `(tid, starttime)`
abbrev pub Key : Type 0
Key = ℕ × ℤ

abbrev pub same_key : Key → Key → Bool
same_key k j = (k.0 == j.0) && eqb_ℤ k.1 j.1

abbrev pub Since : Type 0
Since = List (Key × Instant)

unfoldable pub first_seen : Key → Since → Option Instant
first_seen k [] = none
first_seen k ((j, t) ∷ rest) = if same_key j k then some t else first_seen k rest

-- `self._since.setdefault(key, now)`, as far as it writes.
unfoldable pub start_clock : Key → Instant → Since → Since
start_clock k now [] = (k, now) ∷ []
start_clock k now ((j, t) ∷ rest) =
    let more = start_clock k now rest in if same_key j k then (j, t) ∷ rest else (j, t) ∷ more

unfoldable pub was_seen : Key → List Key → Bool
was_seen k [] = false
was_seen k (j ∷ js) = same_key j k || was_seen k js

-- The loop that forgets the tasks that left D or exited.
unfoldable pub forget_unseen : List Key → Since → Since
forget_unseen seen [] = []
forget_unseen seen ((k, t) ∷ rest) =
    let kept = forget_unseen seen rest in if was_seen k seen then (k, t) ∷ kept else kept

pub record CensusConfig : Type 0 where
  pub stuck_seconds : ℤ
  pub gpu_comm_prefixes : List String
  pub gpu_wchan_substrings : List String

abbrev pub any_prefix : List String → String → Bool
any_prefix [] comm = false
any_prefix (p ∷ ps) comm = starts_with comm p || any_prefix ps comm

abbrev pub any_part : List String → String → Bool
any_part [] wchan = false
any_part (p ∷ ps) wchan = is_part p wchan || any_part ps wchan

-- `_is_gpu_task`: the name counts only where the wchan says nothing.
unfoldable pub is_gpu_task : CensusConfig → String → Wchan → Bool
is_gpu_task cfg comm denied = any_prefix cfg.gpu_comm_prefixes comm
is_gpu_task cfg comm (symbol s) =
    if s =s= "" then any_prefix cfg.gpu_comm_prefixes comm else any_part cfg.gpu_wchan_substrings s

-- An entry of `offenders`; `tenths` is `seconds`, in tenths of a second.
pub record Offender : Type 0 where
  pub tid : ℕ
  pub pid : ℕ
  pub comm : String
  pub wchan : String
  pub wchan_denied : Bool
  pub tenths : ℤ
  pub gpu_worker : Bool

insert_longest : Offender → List Offender → List Offender
insert_longest o [] = o ∷ []
insert_longest o (p ∷ ps) =
    let later = insert_longest o ps in if ltb_ℤ o.tenths p.tenths then p ∷ later else o ∷ p ∷ ps

-- The sort of the offenders, which is stable also in reverse.
unfoldable pub longest_first : List Offender → List Offender
unfolding insert_longest
longest_first [] = []
longest_first (o ∷ os) = insert_longest o (longest_first os)

-- The local variables of `collect`, `_since` and what it returns.
pub record Census : Type 0 where
  pub since : Since
  pub seen : List Key
  pub total : ℕ
  pub stuck : ℕ
  pub gpu_total : ℕ
  pub gpu_stuck : ℕ
  pub wchan_denied : ℕ
  pub max_seconds : Instant
  pub gpu_max_seconds : Instant
  pub offenders : List Offender

abbrev pub no_tasks : Since → Census
no_tasks since = record {
  since = since;
  seen = [];
  total = 0;
  stuck = 0;
  gpu_total = 0;
  gpu_stuck = 0;
  wchan_denied = 0;
  max_seconds = pos 0;
  gpu_max_seconds = pos 0;
  offenders = [];
}

abbrev pub is_denied : Wchan → Bool
is_denied denied = true
is_denied (symbol s) = false

abbrev pub wchan_text : Wchan → String
wchan_text denied = ""
wchan_text (symbol s) = s

abbrev pub max_ℤ : Instant → Instant → Instant
max_ℤ a b = if ltb_ℤ a b then b else a

abbrev pub one_if : Bool → ℕ
one_if b = if b then 1 else 0

module _ (cfg : CensusConfig) (now : Instant) where
  -- The body of the loop for a thread in D.
  unfoldable pub count_task : Task → TaskStat → Census → Census
  count_task task stat c =
      let key : Key = (task.tid, stat.starttime) in
      let secs = now -ℤ default_to now (first_seen key c.since) in
      let is_gpu = is_gpu_task cfg stat.comm task.wchan in
      let is_stuck = not (ltb_ℤ secs (seconds cfg.stuck_seconds)) in
      let offender : Offender = record {
        tid = task.tid;
        pid = task.pid;
        comm = stat.comm;
        wchan = wchan_text task.wchan;
        wchan_denied = is_denied task.wchan;
        tenths = round_tenths secs;
        gpu_worker = is_gpu;
      } in
      record {
        since = start_clock key now c.since;
        seen = key ∷ c.seen;
        total = c.total + 1;
        stuck = c.stuck + one_if is_stuck;
        gpu_total = c.gpu_total + one_if is_gpu;
        gpu_stuck = c.gpu_stuck + one_if (is_stuck && is_gpu);
        wchan_denied = c.wchan_denied + one_if (is_denied task.wchan);
        max_seconds = max_ℤ c.max_seconds secs;
        gpu_max_seconds = if is_gpu then max_ℤ c.gpu_max_seconds secs else c.gpu_max_seconds;
        offenders = if is_stuck then c.offenders ++ offender ∷ [] else c.offenders;
      }

  -- The body of the loop: a thread that is gone or not in D is passed over.
  abbrev pub count_stat : Task → Option TaskStat → Census → Census
  count_stat task none c = c
  count_stat task (some stat) c = if stat.state =s= "D" then count_task task stat c else c

  unfoldable pub count_tasks : List Task → Census → Census
  count_tasks [] c = c
  count_tasks (task ∷ tasks) c = count_tasks tasks (count_stat task task.stat c)

  -- `collect` on the threads of a /proc that can be listed: the offenders are the 20 that have been there
  -- the longest. The two longest times are not rounded here.
  unfoldable pub collect_tasks : Since → List Task → Census
  unfolding count_tasks longest_first
  collect_tasks since tasks =
      let c = count_tasks tasks (no_tasks since) in
      record c {
        since = forget_unseen c.seen c.since;
        offenders = take 20 (longest_first c.offenders);
      }

  -- `collect`: a /proc that cannot be listed leaves the clocks as they are. The flag is `readable`.
  unfoldable pub collect : Since → Option (List Task) → Bool × Census
  unfolding collect_tasks
  collect since none = (false, no_tasks since)
  collect since (some tasks) = (true, collect_tasks since tasks)
