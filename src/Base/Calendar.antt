-- ===== src/Base/Calendar.antt =====
-- The days of the Gregorian calendar, counted from the first day of the year 1, as Python's `datetime`,
-- `time.gmtime` and `calendar.timegm` count them. A year is given as the number of years before it.
use gpu_node_health.Base.{
  ℕ, zero, suc, ◌+◌, ◌-◌, ◌*◌, ◌%◌, ◌≤◌, ◌<◌, Bool, true, false, not, ◌&&◌, ◌||◌, ◌==◌, ◌≡◌, refl,
  ◌∙◌, List, [], ◌∷◌, ltb, if◌then◌else◌, length, All, arith, Bool-cases, inl, inr,
}

abbrev pub is_leap : ℕ → Bool
is_leap y = (y % 4 == 0) && (not (y % 100 == 0) || y % 400 == 0)

-- The days of the year with `k` years before it.
unfoldable pub year_days : ℕ → ℕ
year_days k = if is_leap (k + 1) then 366 else 365

unfoldable pub month_days : ℕ → List ℕ
month_days k =
    31 ∷ (if is_leap (k + 1) then 29 else 28) ∷ 31 ∷ 30 ∷ 31 ∷ 30 ∷ 31 ∷ 31 ∷ 30 ∷ 31 ∷ 30 ∷ 31 ∷ []

-- The days of the first `k` years.
unfoldable pub days_to : ℕ → ℕ
unfolding year_days
days_to zero = 0
days_to (suc k) = days_to k + year_days k

-- The years that `d` days fill from the year with `k` years before it, and the days that are left. A
-- round takes a year, so that a unit of fuel is enough for 365 days.
unfoldable pub walk_years : ℕ → ℕ → ℕ → ℕ × ℕ
unfolding year_days
walk_years zero k d = (k, d)
walk_years (suc f) k d = elim (ltb d (year_days k)) [
  | true ↦ (k, d)
  | false ↦ walk_years f (suc k) (d - year_days k)
]

abbrev pub next_month : ℕ × ℕ → ℕ × ℕ
next_month (m, d) = (suc m, d)

-- The same for the months of a year.
unfoldable pub walk_months : List ℕ → ℕ → ℕ × ℕ
walk_months [] d = (0, d)
walk_months (m ∷ ms) d =
    let rest = walk_months ms (d - m) in if ltb d m then (0, d) else next_month rest

-- The days of the first `i` months.
unfoldable pub days_of_months : List ℕ → ℕ → ℕ
days_of_months ms zero = 0
days_of_months [] (suc i) = 0
days_of_months (m ∷ ms) (suc i) = m + days_of_months ms i

-- The days of month `i`, counted from 0; 0 behind the last.
unfoldable pub length_of_month : List ℕ → ℕ → ℕ
length_of_month [] i = 0
length_of_month (m ∷ ms) zero = m
length_of_month (m ∷ ms) (suc i) = length_of_month ms i

abbrev pub total : List ℕ → ℕ
total [] = 0
total (m ∷ ms) = m + total ms

pub year_bounds : (k : ℕ) → (365 ≤ year_days k) × (year_days k ≤ 366)
unfolding year_days
year_bounds k = ground arith

pub days_to_bounds : (k : ℕ) → (365 * k ≤ days_to k) × (days_to k ≤ 366 * k)
unfolding days_to
days_to_bounds zero = (omega arith, omega arith)
days_to_bounds (suc k) = omega (arith, year_bounds k, days_to_bounds k)

pub total_month_days : (k : ℕ) → total (month_days k) ≡ year_days k
unfolding month_days year_days
total_month_days k = ground arith

-- What a walk over the years leaves: all days are kept, and those left do not fill a year.
abbrev pub IsWalk : ℕ → ℕ × ℕ → Type 0
IsWalk n (k, d) = (days_to k + d ≡ n) × (d < year_days k)

days_to_next : (k d : ℕ) → year_days k ≤ d → days_to (suc k) + (d - year_days k) ≡ days_to k + d
unfolding days_to
days_to_next k d h = omega arith

pub walk_years-IsWalk : (f k d : ℕ) → d ≤ 365 * f → IsWalk (days_to k + d) (walk_years f k d)
unfolding walk_years
walk_years-IsWalk zero k d h = (refl, omega (arith, year_bounds k))
walk_years-IsWalk (suc f) k d h = elim (Bool-cases (ltb d (year_days k))) [
  | inl e ↦ rw (walk_years, e) (refl, ground arith)
  | inr e ↦
      let later = walk_years-IsWalk f (suc k) (d - year_days k) (omega (arith, year_bounds k)) in
      let same : days_to (suc k) + (d - year_days k) ≡ days_to k + d =
        days_to_next k d (ground arith) in
      rw (walk_years, e) (later.0 ∙ same, later.1)
]

pub walk_months_lem :
    (ms : List ℕ) (d : ℕ)
    → d < total ms
    → (days_of_months ms (walk_months ms d).0 + (walk_months ms d).1 ≡ d)
      × ((walk_months ms d).1 < length_of_month ms (walk_months ms d).0)
unfolding walk_months days_of_months length_of_month
walk_months_lem [] d h = ground arith
walk_months_lem (m ∷ ms) d h = elim (Bool-cases (ltb d m)) [
  | inl e ↦ rw (walk_months, e) (omega arith, ground arith)
  | inr e ↦
      let rest = walk_months_lem ms (d - m) (ground arith) in
      let kept : m ≤ d = ground arith in rw (walk_months, e) (omega (arith, rest.0, kept), rest.1)
]

pub month_in_year : (ms : List ℕ) (i d : ℕ) → d < length_of_month ms i → i < length ms
unfolding length_of_month
month_in_year [] i d h = absurd (omega arith)
month_in_year (m ∷ ms) zero d h = omega arith
month_in_year (m ∷ ms) (suc i) d h = omega (arith, month_in_year ms i d h)

month_at_most : (n : ℕ) (ms : List ℕ) (i : ℕ) → All (λ m. m ≤ n) ms → length_of_month ms i ≤ n
unfolding length_of_month
month_at_most n [] i h = omega arith
month_at_most n (m ∷ ms) zero h = h.0
month_at_most n (m ∷ ms) (suc i) h = month_at_most n ms i h.1

pub month_days_bound : (k i : ℕ) → length_of_month (month_days k) i ≤ 31
unfolding month_days
month_days_bound k i =
    let february : (if is_leap (k + 1) then 29 else 28) ≤ 31 = ground arith in
    let long : 31 ≤ 31 = omega arith in
    let short : 30 ≤ 31 = omega arith in
    month_at_most 31 (month_days k) i (
      long,
      (
        february,
        (long, (short, (long, (short, (long, (long, (short, (long, (short, (long, tt)))))))))),
      ),
    )
