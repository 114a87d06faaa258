-- ===== src/Guard/Time.antt =====
-- guard/gpu_node_guard/k8s.py: `parse_time`, `rfc3339` and `rfc3339_micro`. What Python's `gmtime`, `strftime`, `strptime`
-- and `timegm` do in them is written out, with the digits of ASCII.
pub mod Fields
pub mod RoundTrip
use Prim.Native.Char.{Char, code}
use gpu_node_health.Base.{
  ℕ, suc, ◌+◌, ◌-◌, ◌*◌, ◌/◌, ◌%◌, String, ◌<>◌, Bool, true, false, ◌&&◌, ◌||◌, ◌==◌, Option, none,
  some, if◌then◌else◌, leb,
}
use gpu_node_health.Base.Bind.{◌>>=◌}
use gpu_node_health.Base.Int.{ℤ, pos, negsuc, sub_ℕ, Instant, seconds}
use gpu_node_health.Base.Show.{digit}
use gpu_node_health.Base.Chars.{is_digit}
use gpu_node_health.Base.Calendar.{
  month_days, days_to, walk_years, walk_months, days_of_months, length_of_month,
}

-- The seconds of 1970 from the start of the year 1.
abbrev pub epoch : ℕ
epoch = 62135596800

-- The whole seconds from the start of the year 1, rounded down.
abbrev pub since_year_one : Instant → ℕ
since_year_one (pos n) = n / 1000000 + epoch
since_year_one (negsuc n) = epoch - suc (n / 1000000)

-- `time.gmtime`: the years before, the months before and the days before in their year, month and day,
-- and the seconds of the day.
pub record Date : Type 0 where
  pub years : ℕ
  pub months : ℕ
  pub days : ℕ
  pub second : ℕ

unfoldable pub gmtime : ℕ → Date
gmtime s =
    let n = s / 86400 in
    let (years, rest) = walk_years (n / 365 + 1) 0 n in
    let (months, days) = walk_months (month_days years) rest in
    record { years = years; months = months; days = days; second = s % 86400 }

-- A number of two digits.
unfoldable pub two : ℕ → String
two n = digit (n / 10) <> digit (n % 10)

-- A year from 1000 to 9999.
unfoldable pub four : ℕ → String
four n = two (n / 100) <> two (n % 100)

-- `%Y-%m-%dT%H:%M:%S` and what stands behind it, for a year of four digits.
unfoldable pub stamp_text : Date → String → String
stamp_text d tail =
    four (d.years + 1)
    <> ("-"
        <> (two (d.months + 1)
            <> ("-"
                <> (two (d.days + 1)
                    <> ("T"
                        <> (two (d.second / 3600)
                            <> (":"
                                <> (two (d.second % 3600 / 60)
                                    <> (":" <> (two (d.second % 60) <> tail))))))))))

unfoldable pub rfc3339 : Instant → String
rfc3339 ts = stamp_text (gmtime (since_year_one ts)) "Z"

unfoldable pub rfc3339_micro : Instant → String
rfc3339_micro now = stamp_text (gmtime (since_year_one now)) ".000000Z"

-- A number that is read, and what follows it.
abbrev pub Field : Type 0
Field = Option (ℕ × String)

abbrev pub digit_value : Char → ℕ
digit_value c = code c - b'0'

-- One or two digits.
unfoldable pub read_two : String → Field
unfolding is_digit
read_two String.[] = none
read_two (String.◌∷◌ c String.[]) = if is_digit c then some (digit_value c, "") else none
read_two (String.◌∷◌ c (String.◌∷◌ d s)) =
    if is_digit c
    then if is_digit d
      then some (digit_value c * 10 + digit_value d, s)
      else some (digit_value c, String.◌∷◌ d s)
    else none

-- `%d` also takes a space and a digit.
unfoldable pub read_day : String → Field
unfolding read_two
read_day String.[] = none
read_day (String.◌∷◌ c String.[]) = read_two (String.◌∷◌ c String.[])
read_day (String.◌∷◌ c (String.◌∷◌ d s)) =
    if (code c == b' ') && is_digit d
    then some (digit_value d, s)
    else read_two (String.◌∷◌ c (String.◌∷◌ d s))

-- Four digits.
unfoldable pub read_four : String → Field
unfolding is_digit
read_four (String.◌∷◌ a (String.◌∷◌ b (String.◌∷◌ c (String.◌∷◌ d s)))) =
    if is_digit a && is_digit b && is_digit c && is_digit d
    then some ((digit_value a * 10 + digit_value b) * 100 + (digit_value c * 10 + digit_value d), s)
    else none
read_four s = none

-- The separator `c`; a letter stands for its small letter too.
abbrev pub skip : Char → Char → Field → Field
skip c small none = none
skip c small (some (n, String.[])) = none
skip c small (some (n, String.◌∷◌ d s)) =
    if (code d == code c) || (code d == code small) then some (n, s) else none

-- A number from `lo` to `hi`.
abbrev pub in_range : ℕ → ℕ → Field → Field
in_range lo hi none = none
in_range lo hi (some (n, s)) = if leb lo n && leb n hi then some (n, s) else none

-- The end of the text. A day that its month does not have is a ValueError.
abbrev pub date_at_end : ℕ → ℕ → ℕ → ℕ → String → Option Date
date_at_end y m d s String.[] =
    if leb d (length_of_month (month_days (y - 1)) (m - 1))
    then some (record { years = y - 1; months = m - 1; days = d - 1; second = s })
    else none
date_at_end y m d s (String.◌∷◌ c rest) = none

-- `time.strptime(text, "%Y-%m-%dT%H:%M:%SZ")`; `none` is the ValueError.
unfoldable pub strptime : String → Option Date
strptime text = do
  (year, s1) ← skip "-" "-" (in_range 1 9999 (read_four text))
  (month, s2) ← skip "-" "-" (in_range 1 12 (read_two s1))
  (day, s3) ← skip "T" "t" (in_range 1 31 (read_day s2))
  (hour, s4) ← skip ":" ":" (in_range 0 23 (read_two s3))
  (minute, s5) ← skip ":" ":" (in_range 0 59 (read_two s4))
  (second, s6) ← skip "Z" "z" (in_range 0 61 (read_two s5))
  date_at_end year month day (hour * 3600 + minute * 60 + second) s6

-- `calendar.timegm`
unfoldable pub timegm : Date → ℤ
timegm d =
    sub_ℕ
      ((days_to d.years + days_of_months (month_days d.years) d.months + d.days) * 86400 + d.second)
      epoch

-- `head.endswith("Z")`
abbrev pub is_zulu : String → Bool
is_zulu String.[] = false
is_zulu (String.◌∷◌ c String.[]) = code c == b'Z'
is_zulu (String.◌∷◌ c (String.◌∷◌ d s)) = is_zulu (String.◌∷◌ d s)

abbrev pub with_zulu : String → String
with_zulu head = if is_zulu head then head else head <> "Z"

-- `split(".", 1)[0]`
unfoldable pub before_point : String → String
before_point String.[] = ""
before_point (String.◌∷◌ c s) =
    let more = String.◌∷◌ c (before_point s) in if code c == b'.' then "" else more

abbrev pub instant_of : Option Date → Option Instant
instant_of none = none
instant_of (some d) = some (seconds (timegm d))

unfoldable pub parse_time : Option String → Option Instant
parse_time none = none
parse_time (some String.[]) = none
parse_time (some (String.◌∷◌ c s)) =
    instant_of (strptime (with_zulu (before_point (String.◌∷◌ c s))))
