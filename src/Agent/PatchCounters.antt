-- ===== src/Agent/PatchCounters.antt =====
-- agent/gpu_health_agent/signals/patchctr.py: `PatchCounters.collect`. The directory of the counters is an
-- argument.
pub mod Published
use gpu_node_health.Base.{
  String, Bool, true, false, ◌&&◌, ◌≡◌, refl, Option, none, some, List, [], ◌∷◌, arith, ◌=s=◌,
  eq_iff, if◌then◌else◌, contains, Bool-cases, inl, inr,
}
use gpu_node_health.Base.Int.{ℤ, negsuc}
use gpu_node_health.Base.Dict.{Dict, get, put, get-put, default_to}
use gpu_node_health.Base.Parse.{parse_int}
use gpu_node_health.Base.Strip.{strip}

-- The keys of `KNOWN_COUNTERS`, each of which is its own metric.
abbrev pub known_counters : List String
known_counters =
    "d4_watchdog_fired_total" ∷ "d1_remediate_fences_total" ∷ "ttm_delete_giveup_total"
    ∷ "ttm_delete_leaked_bytes" ∷ "d3_failover_total" ∷ []

-- What opening and reading a counter gives. `absent` is FileNotFoundError or NotADirectoryError, and
-- `unreadable` another OSError.
pub data CounterFile : Type 0 where
  holds : String → CounterFile
  absent unreadable : CounterFile

pub record Directory : Type 0 where
  pub is_dir : Bool
  pub read : String → CounterFile

-- -1 marks a counter that is there and is no number.
unfoldable pub counter_value : CounterFile → Option ℤ
counter_value (holds text) = some (default_to (negsuc 0) (parse_int (strip text)))
counter_value absent = none
counter_value unreadable = some (negsuc 0)

abbrev pub record_counter : String → Option ℤ → Dict ℤ → Dict ℤ
record_counter name none counters = counters
record_counter name (some v) counters = put name v counters

-- The loop of `collect`.
unfoldable pub read_counters : Directory → List String → Dict ℤ → Dict ℤ
read_counters dir [] counters = counters
read_counters dir (name ∷ names) counters =
    read_counters dir names (record_counter name (counter_value (dir.read name)) counters)

pub record PatchCounters : Type 0 where
  pub present : Bool
  pub counters : Dict ℤ

-- `bool(counters)`
abbrev pub is_filled : Dict ℤ → Bool
is_filled [] = false
is_filled (entry ∷ rest) = true

unfoldable pub collect : Directory → PatchCounters
unfolding read_counters
collect dir =
    if dir.is_dir
    then (let counters = read_counters dir known_counters [] in
        record { present = is_filled counters; counters = counters })
    else record { present = false; counters = [] }

-- The first of two values that is there.
abbrev pub or_else : Option ℤ → Option ℤ → Option ℤ
or_else none w = w
or_else (some v) w = some v

get-record_counter :
    (k j : String) (v : Option ℤ) (m : Dict ℤ)
    → get j (record_counter k v m) ≡ (if k =s= j then or_else v (get j m) else get j m)
get-record_counter k j none m = ground arith
get-record_counter k j (some v) m = get-put k j v m

get-read_counters :
    (dir : Directory) (j : String) (names : List String) (m : Dict ℤ)
    → get j (read_counters dir names m)
      ≡ (if contains j names then or_else (counter_value (dir.read j)) (get j m) else get j m)
unfolding read_counters
get-read_counters dir j [] m = refl
get-read_counters dir j (k ∷ names) m =
    let v = counter_value (dir.read k) in
    rw (get-read_counters dir j names (record_counter k v m), get-record_counter k j v m)
      (again k j names (get j m))
  where
    again :
        (k j : String) (names : List String) (o : Option ℤ)
        → ◌≡◌ {A = Option ℤ}
            (if contains j names
              then or_else
                  (counter_value (dir.read j))
                  (if k =s= j then or_else (counter_value (dir.read k)) o else o)
              else if k =s= j
              then or_else (counter_value (dir.read k)) o
              else o)
            (if contains j (k ∷ names) then or_else (counter_value (dir.read j)) o else o)
    again k j names o = ground (arith, eq_iff j k, eq_iff k j)

or_else-none : (v : Option ℤ) → or_else v none ≡ v
or_else-none none = refl
or_else-none (some v) = refl

-- Each name of the set is looked up in the directory by the rule of `counter_value`.
pub counter-collect :
    (dir : Directory) (name : String)
    → get name (collect dir).counters
      ≡ (if dir.is_dir && contains name known_counters then counter_value (dir.read name) else none)
unfolding collect get
counter-collect dir name = elim (Bool-cases dir.is_dir) [
  | inl e ↦ rw (e, get-read_counters dir name known_counters [], or_else-none) refl
  | inr e ↦ rw e refl
]
