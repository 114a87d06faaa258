-- ===== src/Guard/TimeTests.antt =====
-- Time stamps, and two guards at one Lease.
use gpu_node_health.Base.{◌≡◌, refl, [], ◌∷◌, ◌++◌, none, some, arith, false}
use gpu_node_health.Base.Int.{pos}
use gpu_node_health.Base.Show.{digit}
use gpu_node_health.Base.Chars.{is_digit}
use gpu_node_health.Base.Calendar.{
  year_days, month_days, days_to, walk_years, walk_months, days_of_months, length_of_month,
}
use gpu_node_health.Guard.World.{Cluster, GuardConfig, get_lease, ok}
use gpu_node_health.Guard.Loop.{round}
use gpu_node_health.Guard.Loop.Exclusion.{claimed, round_excluded}
use gpu_node_health.Guard.Samples.{guard, cluster, start}
use gpu_node_health.Guard.Time.{
  gmtime, two, four, stamp_text, rfc3339, rfc3339_micro, parse_time, strptime, timegm, read_two,
  read_four, read_day, before_point,
}
use gpu_node_health.Guard.Time.RoundTrip.{parse_time-rfc3339_micro}

stamp_test : rfc3339_micro (pos 1789632360700000) ≡ "2026-09-17T08:06:00.000000Z"
unfolding rfc3339_micro stamp_text two four digit gmtime walk_years walk_months year_days month_days
stamp_test = refl

leap_test : rfc3339 (pos 1709164800000000) ≡ "2024-02-29T00:00:00Z"
unfolding rfc3339 stamp_text two four digit gmtime walk_years walk_months year_days month_days
leap_test = refl

parse_test : parse_time (some "2026-9-17t08:06:00Z") ≡ some (pos 1789632360000000)
unfolding parse_time strptime timegm read_two read_four read_day before_point is_digit days_to
    days_of_months month_days length_of_month year_days
parse_test = refl

no_such_day_test : parse_time (some "2025-02-29T00:00:00Z") ≡ none
unfolding parse_time strptime read_two read_four read_day before_point is_digit month_days
    length_of_month
no_such_day_test = refl

parse_time-rfc3339_micro_example :
    parse_time (some (rfc3339_micro (pos 1789632360700000))) ≡ some (pos 1789632360000000)
parse_time-rfc3339_micro_example = parse_time-rfc3339_micro 1789632360700000 (omega arith)

-- A second replica.
abbrev replica : GuardConfig
replica = record guard { identity = "guard-2" }

abbrev taken : Cluster
taken = cluster (ok (some (claimed guard 1789632360700000 none))) (ok [])

round_excluded_example :
    round parse_time rfc3339_micro replica taken (pos 1789632370000000) start ≡ record start {
      leading = false;
      calls = start.calls ++ get_lease ∷ [];
      state = record start.state { is_leader = false; last_loop = pos 1789632370000000 };
    }
round_excluded_example =
    round_excluded guard replica taken 1789632360700000 1789632370000000 30 none start (omega arith)
      refl refl (omega arith) refl
