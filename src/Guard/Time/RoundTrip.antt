-- ===== src/Guard/Time/RoundTrip.antt =====
-- The time stamps of guard/gpu_node_guard/k8s.py are read back.
use Prim.Native.Char.{code}
use text.Mathlib.TextLemmas.{nil-append, cons-append, append_assoc}
use gpu_node_health.Base.{
  ℕ, zero, suc, ◌+◌, ◌-◌, ◌*◌, ◌/◌, ◌%◌, ◌≤◌, ◌<◌, String, ◌<>◌, true, false, ◌==◌, ◌≡◌, refl, some,
  arith, leb, Bool-cases, inl, inr,
}
use gpu_node_health.Base.Int.{pos}
use gpu_node_health.Base.Chars.{all_chars-append}
use gpu_node_health.Base.Matching.{without}
use gpu_node_health.Base.Show.{digit}
use gpu_node_health.Base.Calendar.{
  days_to, days_of_months, month_days, year_days, walk_years, walk_months, walk_years-IsWalk,
  walk_months_lem, total_month_days, year_bounds, days_to_bounds, length_of_month,
}
use gpu_node_health.Guard.Time.{
  Date, gmtime, timegm, epoch, two, four, stamp_text, rfc3339_micro, parse_time, before_point,
  read_four, with_zulu, is_zulu, strptime, instant_of,
}
use gpu_node_health.Guard.Time.Fields.{IsDate, strptime-stamp_text}

-- The days and seconds of a date, from the start of the year 1.
abbrev ordinal : Date → ℕ
ordinal d =
    (days_to d.years + days_of_months (month_days d.years) d.months + d.days) * 86400 + d.second

module _ (s : ℕ) where
  n : ℕ
  n = s / 86400

  walked : ℕ × ℕ
  walked = walk_years (n / 365 + 1) 0 n

  rest_of_year : (days_to walked.0 + walked.1 ≡ n) × (walked.1 < year_days walked.0)
  unfolding walked days_to
  rest_of_year =
      let walk = walk_years-IsWalk (n / 365 + 1) 0 n (omega arith) in
      (omega (arith, walk.0), walk.1)

  months_kept :
      (days_of_months (month_days walked.0) (walk_months (month_days walked.0) walked.1).0
          + (walk_months (month_days walked.0) walked.1).1
        ≡ walked.1)
      × ((walk_months (month_days walked.0) walked.1).1
          < length_of_month (month_days walked.0) (walk_months (month_days walked.0) walked.1).0)
  months_kept =
      walk_months_lem (month_days walked.0) walked.1
        (omega (arith, rest_of_year.1, total_month_days walked.0))

  ordinal-gmtime : ordinal (gmtime s) ≡ s
  unfolding gmtime walked n
  ordinal-gmtime = omega (arith, rest_of_year.0, months_kept.0)

  -- From 1970 on and before the year 9898.
  gmtime-IsDate : epoch ≤ s → s < 312344640000 → IsDate (gmtime s)
  unfolding gmtime walked n
  gmtime-IsDate h k = record {
    not_early =
        omega
          (arith, rest_of_year.0, rest_of_year.1, year_bounds walked.0, days_to_bounds walked.0);
    not_late = omega (arith, rest_of_year.0, days_to_bounds walked.0);
    days = months_kept.1;
    second = omega arith;
  }

timegm-gmtime : (s : ℕ) → timegm (gmtime (s + epoch)) ≡ pos s
unfolding timegm
timegm-gmtime s =
    let after : leb epoch (s + epoch) ≡ true = ground arith in
    let back : s + epoch - epoch ≡ s = omega arith in
    rw (ordinal-gmtime (s + epoch), after, back) refl

before_point_over :
    (a s : String) → without "." a ≡ true → before_point (a <> s) ≡ a <> before_point s
unfolding before_point
before_point_over String.[] s h = rw (nil-append, nil-append) refl
before_point_over (String.◌∷◌ c a) s h =
    let other : code c == b'.' ≡ false = ground arith in
    rw (cons-append, cons-append, before_point, other, before_point_over a s (ground arith)) refl

is_zulu_over : (a s : String) → without "Z" a ≡ true → is_zulu (a <> s) ≡ is_zulu s
is_zulu_over String.[] s h = rw nil-append refl
is_zulu_over (String.◌∷◌ c String.[]) String.[] h =
    let shape : (String.◌∷◌ c String.[]) <> "" ≡ String.◌∷◌ c String.[] =
      rw (cons-append, nil-append) refl in
    rw shape (ground arith)
is_zulu_over (String.◌∷◌ c String.[]) (String.◌∷◌ d s) h = rw (cons-append, nil-append) refl
is_zulu_over (String.◌∷◌ c (String.◌∷◌ b a)) s h =
    let later = is_zulu_over (String.◌∷◌ b a) s (ground arith) in
    let shape = rw cons-append at later in rw (cons-append, cons-append) shape

with_zulu_over : (a s : String) → without "Z" a ≡ true → with_zulu (a <> s) ≡ a <> with_zulu s
with_zulu_over a s h = elim (Bool-cases (is_zulu s)) [
  | inl e ↦ rw (is_zulu_over a s h, e) refl
  | inr e ↦ rw (is_zulu_over a s h, e) (append_assoc a s "Z")
]

-- Digits are neither points nor letters.
plain_digit : (n : ℕ) → (without "." (digit n) ≡ true) × (without "Z" (digit n) ≡ true)
unfolding digit
plain_digit zero = (refl, refl)
plain_digit (suc zero) = (refl, refl)
plain_digit (suc (suc zero)) = (refl, refl)
plain_digit (suc (suc (suc zero))) = (refl, refl)
plain_digit (suc (suc (suc (suc zero)))) = (refl, refl)
plain_digit (suc (suc (suc (suc (suc zero))))) = (refl, refl)
plain_digit (suc (suc (suc (suc (suc (suc zero)))))) = (refl, refl)
plain_digit (suc (suc (suc (suc (suc (suc (suc zero))))))) = (refl, refl)
plain_digit (suc (suc (suc (suc (suc (suc (suc (suc zero)))))))) = (refl, refl)
plain_digit (suc (suc (suc (suc (suc (suc (suc (suc (suc zero))))))))) = (refl, refl)
plain_digit (suc (suc (suc (suc (suc (suc (suc (suc (suc (suc n)))))))))) = (refl, refl)

plain_two : (n : ℕ) → (without "." (two n) ≡ true) × (without "Z" (two n) ≡ true)
unfolding two
plain_two n = (
  rw (all_chars-append, (plain_digit (n / 10)).0, (plain_digit (n % 10)).0) refl,
  rw (all_chars-append, (plain_digit (n / 10)).1, (plain_digit (n % 10)).1) refl,
)

point_first : before_point ".000000Z" ≡ ""
unfolding before_point
point_first = refl

module _ (d : Date) where
  before_point-stamp_text : before_point (stamp_text d ".000000Z") ≡ stamp_text d ""
  unfolding stamp_text four
  before_point-stamp_text =
      let over = λ (n : ℕ) (s : String). before_point_over (two n) s (plain_two n).0 in
      let sep = λ (a s : String) (h : without "." a ≡ true). before_point_over a s h in
      rw
        (
          append_assoc,
          over ((d.years + 1) / 100) _,
          over ((d.years + 1) % 100) _,
          sep "-" _ refl,
          over (d.months + 1) _,
          sep "-" _ refl,
          over (d.days + 1) _,
          sep "T" _ refl,
          over (d.second / 3600) _,
          sep ":" _ refl,
          over (d.second % 3600 / 60) _,
          sep ":" _ refl,
          over (d.second % 60) _,
          point_first,
        )
        (rw (stamp_text, four, append_assoc) refl)

  with_zulu-stamp_text : with_zulu (stamp_text d "") ≡ stamp_text d "Z"
  unfolding stamp_text four
  with_zulu-stamp_text =
      let over = λ (n : ℕ) (s : String). with_zulu_over (two n) s (plain_two n).1 in
      let sep = λ (a s : String) (h : without "Z" a ≡ true). with_zulu_over a s h in
      rw
        (
          append_assoc,
          over ((d.years + 1) / 100) _,
          over ((d.years + 1) % 100) _,
          sep "-" _ refl,
          over (d.months + 1) _,
          sep "-" _ refl,
          over (d.days + 1) _,
          sep "T" _ refl,
          over (d.second / 3600) _,
          sep ":" _ refl,
          over (d.second % 3600 / 60) _,
          sep ":" _ refl,
          over (d.second % 60) _,
        )
        (rw (stamp_text, four, append_assoc, nil-append) refl)

parse_time-some :
    (s : String) → parse_time (some s) ≡ instant_of (strptime (with_zulu (before_point s)))
unfolding parse_time
parse_time-some String.[] = unfold before_point strptime read_four in refl
parse_time-some (String.◌∷◌ c s) = refl

-- The guard reads a time stamp that it wrote itself for a Lease as the instant at which it was written, cut
-- to whole seconds, from 1970 on and for the 250,000,000,000 seconds that follow, which end in the
-- year 9892.
pub parse_time-rfc3339_micro :
    (t : ℕ)
    → t / 1000000 < 250000000000
    → parse_time (some (rfc3339_micro (pos t))) ≡ some (pos (t / 1000000 * 1000000))
unfolding rfc3339_micro
parse_time-rfc3339_micro t h =
    let s = t / 1000000 in
    let date = gmtime (s + epoch) in
    rw
      (
        parse_time-some (stamp_text date ".000000Z"),
        before_point-stamp_text date,
        with_zulu-stamp_text date,
        strptime-stamp_text date (gmtime-IsDate (s + epoch) (omega arith) (omega arith)),
        timegm-gmtime s,
      )
      refl
