-- ===== src/Guard/Time/Fields.antt =====
-- The fields of a time stamp of guard/gpu_node_guard/k8s.py are read as they are written.
use Prim.Native.Char.{Char, code}
use text.Mathlib.TextLemmas.{nil-append, cons-append, append_assoc}
use gpu_node_health.Base.{
  ℕ, ◌+◌, ◌-◌, ◌*◌, ◌/◌, ◌%◌, ◌≤◌, ◌<◌, String, ◌<>◌, true, false, ◌&&◌, ◌||◌, ◌==◌, ◌≡◌, refl,
  some, leb, arith,
}
use gpu_node_health.Base.Chars.{is_digit}
use gpu_node_health.Base.Parse.{digit-code}
use gpu_node_health.Base.Calendar.{month_days, length_of_month, month_days_bound, month_in_year}
use gpu_node_health.Guard.Time.{
  Date, two, four, read_two, read_day, read_four, digit_value, skip, in_range, stamp_text, strptime,
  date_at_end,
}

-- A text of two digits.
abbrev TwoChars : ℕ → Type 0
TwoChars n =
    (c : Char) × (d : Char) × (two n ≡ String.◌∷◌ c (String.◌∷◌ d String.[]))
    × (code c ≡ n / 10 + b'0')
    × (code d ≡ n % 10 + b'0')

two_chars : (n : ℕ) → n < 100 → TwoChars n
unfolding two
two_chars n h =
    let (c, ec, kc) = digit-code (n / 10) (omega arith) in
    let (d, ed, kd) = digit-code (n % 10) (omega arith) in
    (c, d, rw (ec, ed, cons-append, nil-append) refl, kc, kd)

is_digit_of : (c : Char) (k : ℕ) → k < 10 → code c ≡ k + b'0' → is_digit c ≡ true
unfolding is_digit
is_digit_of c k h e = ground arith

read_two-two : (n : ℕ) (s : String) → n < 100 → read_two (two n <> s) ≡ some (n, s)
unfolding read_two
read_two-two n s h =
    let (c, d, e, kc, kd) = two_chars n h in
    let first = is_digit_of c (n / 10) (omega arith) kc in
    let next = is_digit_of d (n % 10) (omega arith) kd in
    let value : digit_value c * 10 + digit_value d ≡ n = omega arith in
    rw (e, cons-append, cons-append, nil-append, first, next, value) refl

read_day-two : (n : ℕ) (s : String) → n < 100 → read_day (two n <> s) ≡ some (n, s)
unfolding read_day
read_day-two n s h =
    let (c, d, e, kc, kd) = two_chars n h in
    let read = read_two-two n s h in
    let shape = rw (e, cons-append, cons-append, nil-append) at read in
    let unspaced : code c == b' ' ≡ false = ground arith in
    rw (e, cons-append, cons-append, nil-append, unspaced) shape

read_four-four : (n : ℕ) (s : String) → n < 10000 → read_four (four n <> s) ≡ some (n, s)
unfolding read_four
read_four-four n s h =
    let (a, b, e1, ka, kb) = two_chars (n / 100) (omega arith) in
    let (c, d, e2, kc, kd) = two_chars (n % 100) (omega arith) in
    let ha = is_digit_of a (n / 100 / 10) (omega arith) ka in
    let hb = is_digit_of b (n / 100 % 10) (omega arith) kb in
    let hc = is_digit_of c (n % 100 / 10) (omega arith) kc in
    let hd = is_digit_of d (n % 100 % 10) (omega arith) kd in
    let value : (digit_value a * 10 + digit_value b) * 100 + (digit_value c * 10 + digit_value d)
        ≡ n =
      omega arith in
    let shape : four n <> s ≡ String.◌∷◌ a (String.◌∷◌ b (String.◌∷◌ c (String.◌∷◌ d s))) =
      unfold four in
      rw
        (
          append_assoc, e1, cons-append, cons-append, nil-append, e2, cons-append, cons-append,
          nil-append,
        )
        refl in
    rw (shape, read_four, ha, hb, hc, hd, value) refl

skip_lem :
    (c small : Char) (lo hi n : ℕ) (s : String)
    → lo ≤ n
    → n ≤ hi
    → skip c small (in_range lo hi (some (n, String.◌∷◌ c String.[] <> s))) ≡ some (n, s)
skip_lem c small lo hi n s h k =
    let inside : (leb lo n && leb n hi) ≡ true = ground arith in
    let same : ((code c == code c) || (code c == code small)) ≡ true = ground arith in
    rw (inside, cons-append, nil-append, same) refl

-- A date whose fields are in their ranges, with a year of four digits.
pub record IsDate (d : Date) : Type 0 where
  pub not_early : 999 ≤ d.years
  pub not_late : d.years < 9999
  pub days : d.days < length_of_month (month_days d.years) d.months
  pub second : d.second < 86400

date_at_end_lem :
    (d : Date)
    → IsDate d
    → date_at_end
        (d.years + 1)
        (d.months + 1)
        (d.days + 1)
        (d.second / 3600 * 3600 + d.second % 3600 / 60 * 60 + d.second % 60)
        ""
      ≡ some d
date_at_end_lem d h =
    let year : d.years + 1 - 1 ≡ d.years = omega arith in
    let month : d.months + 1 - 1 ≡ d.months = omega arith in
    let day : d.days + 1 - 1 ≡ d.days = omega arith in
    let second : d.second / 3600 * 3600 + d.second % 3600 / 60 * 60 + d.second % 60 ≡ d.second =
      omega arith in
    let exists : leb (d.days + 1) (length_of_month (month_days d.years) d.months) ≡ true =
      ground (arith, h.days) in
    rw (year, month, exists, day, second) refl

pub strptime-stamp_text : (d : Date) → IsDate d → strptime (stamp_text d "Z") ≡ some d
unfolding strptime stamp_text
strptime-stamp_text d h =
    let month = month_in_year (month_days d.years) d.months d.days h.days in
    let twelve : d.months + 1 ≤ 12 = unfold month_days in omega (arith, month) in
    let day : d.days + 1 ≤ 31 = omega (arith, h.days, month_days_bound d.years d.months) in
    rw
      (
        read_four-four (d.years + 1) _ (omega (arith, h.not_late)),
        skip_lem "-" "-" 1 9999 (d.years + 1) _ (omega arith) (omega (arith, h.not_late)),
        read_two-two (d.months + 1) _ (omega arith),
        skip_lem "-" "-" 1 12 (d.months + 1) _ (omega arith) twelve,
        read_day-two (d.days + 1) _ (omega arith),
        skip_lem "T" "t" 1 31 (d.days + 1) _ (omega arith) day,
        read_two-two (d.second / 3600) _ (omega (arith, h.second)),
        skip_lem ":" ":" 0 23 (d.second / 3600) _ (omega arith) (omega (arith, h.second)),
        read_two-two (d.second % 3600 / 60) _ (omega arith),
        skip_lem ":" ":" 0 59 (d.second % 3600 / 60) _ (omega arith) (omega arith),
        read_two-two (d.second % 60) _ (omega arith),
        skip_lem "Z" "z" 0 61 (d.second % 60) "" (omega arith) (omega arith),
      )
      (date_at_end_lem d h)
