-- ===== src/Base/Show.antt =====
-- The decimal print of numbers, `str(n)` and `f"{n}"`.
use gpu_node_health.Base.{ℕ, zero, suc, ◌/◌, ◌%◌, String, ◌<>◌, ◌≡◌, refl, ltb, ◌==◌, if◌then◌else◌}
use gpu_node_health.Base.Int.{ℤ, pos, negsuc, sub_ℕ, Instant}

unfoldable pub digit : ℕ → String
digit zero = "0"
digit (suc zero) = "1"
digit (suc (suc zero)) = "2"
digit (suc (suc (suc zero))) = "3"
digit (suc (suc (suc (suc zero)))) = "4"
digit (suc (suc (suc (suc (suc zero))))) = "5"
digit (suc (suc (suc (suc (suc (suc zero)))))) = "6"
digit (suc (suc (suc (suc (suc (suc (suc zero))))))) = "7"
digit (suc (suc (suc (suc (suc (suc (suc (suc zero)))))))) = "8"
digit _ = "9"

-- One round for each digit; the number itself is fuel enough.
unfoldable pub digits : ℕ → ℕ → String → String
digits zero n rest = digit n <> rest
digits (suc f) n rest =
    let more = digits f (n / 10) (digit (n % 10) <> rest) in
    if ltb n 10 then digit n <> rest else more

unfoldable pub show_ℕ : ℕ → String
unfolding digits digit
show_ℕ n = digits n n ""

unfoldable pub show_ℤ : ℤ → String
unfolding show_ℕ
show_ℤ (pos n) = show_ℕ n
show_ℤ (negsuc n) = "-" <> show_ℕ (suc n)

-- The even one of two neighbours, at a half.
half_even : ℕ → ℕ → ℕ → ℕ
half_even half q r =
    if ltb r half then q else if ltb half r then suc q else if ltb (q % 2) 1 then q else suc q

-- `round(x, 1)` of a time in microseconds, in tenths of a second.
unfoldable pub round_tenths : Instant → ℤ
unfolding half_even
round_tenths (pos n) = pos (half_even 50000 (n / 100000) (n % 100000))
round_tenths (negsuc n) = sub_ℕ 0 (half_even 50000 (suc n / 100000) (suc n % 100000))

round_tenths_test : round_tenths (pos 90250000) ≡ pos 902
unfolding round_tenths
round_tenths_test = refl

-- `str(x)` of a float in tenths, where Python writes no exponent: below 10¹⁶.
unfoldable pub show_tenths : ℤ → String
unfolding show_ℕ digit
show_tenths (pos n) = show_ℕ (n / 10) <> ("." <> digit (n % 10))
show_tenths (negsuc n) = "-" <> (show_ℕ (suc n / 10) <> ("." <> digit (suc n % 10)))

-- `round(x, 3)` of a time in microseconds, in thousandths of a second.
unfoldable pub round_millis : Instant → ℤ
unfolding half_even
round_millis (pos n) = pos (half_even 500 (n / 1000) (n % 1000))
round_millis (negsuc n) = sub_ℕ 0 (half_even 500 (suc n / 1000) (suc n % 1000))

-- The digits behind the point, of a number of thousandths: one at least, and no zero behind the first.
unfoldable pub fraction : ℕ → String
unfolding digit
fraction r =
    digit (r / 100)
    <> (if r % 100 == 0
        then ""
        else digit (r / 10 % 10) <> (if r % 10 == 0 then "" else digit (r % 10)))

-- `str(x)` of a float in thousandths, where Python writes no exponent: below 10¹⁶.
unfoldable pub show_millis : ℤ → String
unfolding show_ℕ fraction
show_millis (pos n) = show_ℕ (n / 1000) <> ("." <> fraction (n % 1000))
show_millis (negsuc n) = "-" <> (show_ℕ (suc n / 1000) <> ("." <> fraction (suc n % 1000)))

millis_test : show_millis (round_millis (pos 12070500)) ≡ "12.07"
unfolding show_millis round_millis
millis_test = refl

-- `int(x)` of a time: its whole seconds, cut towards zero.
unfoldable pub whole_seconds : Instant → ℤ
whole_seconds (pos n) = pos (n / 1000000)
whole_seconds (negsuc n) = sub_ℕ 0 (suc n / 1000000)

-- `f"{x:.0f}"` of a time in microseconds, in seconds.
unfoldable pub show_seconds : Instant → String
unfolding show_ℕ half_even
show_seconds (pos n) = show_ℕ (half_even 500000 (n / 1000000) (n % 1000000))
show_seconds (negsuc n) = "-" <> show_ℕ (half_even 500000 (suc n / 1000000) (suc n % 1000000))

show_seconds_test : show_seconds (pos 902500000) ≡ "902"
unfolding show_seconds
show_seconds_test = refl

show_test : show_ℤ (negsuc 1203) ≡ "-1204"
unfolding show_ℤ
show_test = refl
