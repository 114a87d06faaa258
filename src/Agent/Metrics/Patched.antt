-- ===== src/Agent/Metrics/Patched.antt =====
-- The names of the counters of agent/gpu_health_agent/signals/patchctr.py as names of series.
use gpu_node_health.Base.{
  String, true, ◌≡◌, refl, Option, none, some, List, [], ◌∷◌, ◌=s=◌, Bool-cases, inl, inr,
}
use gpu_node_health.Base.Int.{ℤ}
use gpu_node_health.Base.Dict.{Dict, put}
use gpu_node_health.Base.Lists.{All}
use gpu_node_health.Agent.PatchCounters.{
  Directory, counter_value, record_counter, read_counters, known_counters, collect,
}
use gpu_node_health.Agent.Metrics.Declared.{is_series, AreSeries, IsSeriesKey}

put-IsSeriesKey :
    (k : String) (v : ℤ) (m : Dict ℤ)
    → is_series k ≡ true
    → All IsSeriesKey m
    → All IsSeriesKey (put k v m)
unfolding put
put-IsSeriesKey k v [] h a = (h, tt)
put-IsSeriesKey k v ((j, w) ∷ m) h a = elim (Bool-cases (j =s= k)) [
  | inl e ↦ rw (put, e) (a.0, a.1)
  | inr e ↦ rw (put, e) (a.0, put-IsSeriesKey k v m h a.1)
]

record_counter-IsSeriesKey :
    (k : String) (v : Option ℤ) (m : Dict ℤ)
    → is_series k ≡ true
    → All IsSeriesKey m
    → All IsSeriesKey (record_counter k v m)
record_counter-IsSeriesKey k none m h a = a
record_counter-IsSeriesKey k (some v) m h a = put-IsSeriesKey k v m h a

read_counters-IsSeriesKey :
    (dir : Directory) (names : List String) (m : Dict ℤ)
    → All (λ name. is_series name ≡ true) names
    → All IsSeriesKey m
    → All IsSeriesKey (read_counters dir names m)
unfolding read_counters
read_counters-IsSeriesKey dir [] m h a = a
read_counters-IsSeriesKey dir (name ∷ names) m h a =
    let v = counter_value (dir.read name) in
    read_counters-IsSeriesKey dir names (record_counter name v m) h.1
      (record_counter-IsSeriesKey name v m h.0 a)

-- Whatever the directory holds, the counters that are read have such names.
pub collect-AreSeries : (dir : Directory) → AreSeries (some (collect dir))
unfolding collect
collect-AreSeries dir = elim (Bool-cases dir.is_dir) [
  | inl e ↦
      rw (collect, e)
        (read_counters-IsSeriesKey dir known_counters [] (refl, (refl, (refl, (refl, (refl, tt)))))
          tt)
  | inr e ↦ rw (collect, e) tt
]
