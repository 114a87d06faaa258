-- ===== src/Base/Parse.antt =====
-- Python's `int(text)`, and that it reads back what `str` prints. The digits are those of ASCII.
use Prim.Native.Char.{Char, code}
use text.Mathlib.TextLemmas.{nil-append, cons-append}
use native.Mathlib.Nat.{zero-add}
use gpu_node_health.Base.{
  ap, ◌∙◌, String, ◌<>◌, ℕ, zero, suc, ◌+◌, ◌-◌, ◌*◌, ◌/◌, ◌%◌, ◌≤◌, ◌<◌, Bool, true, false, ◌&&◌,
  ◌==◌, ◌≡◌, refl, Option, none, some, if◌then◌else◌, arith, inl, inr, Bool-cases, ltb,
}
use gpu_node_health.Base.Int.{ℤ, pos, negsuc, sub_ℕ}
use gpu_node_health.Base.Chars.{is_digit, is_space, all_chars, all_chars-append, all_chars_mono}
use gpu_node_health.Base.Strip.{strip, strip_solid, not_space}
use gpu_node_health.Base.Show.{digit, digits, show_ℕ, show_ℤ, show_tenths}

-- The number that the digits make after `acc`. An underscore stands between two digits; `after` says
-- whether a digit came last.
unfoldable pub number : String → Bool → ℕ → Option ℕ
unfolding is_digit
number String.[] after acc = if after then some acc else none
number (String.◌∷◌ c s) after acc =
    let more = number s true (acc * 10 + (code c - b'0')) in
    let skip = number s false acc in
    if is_digit c then more else if code c == b'_' && after then skip else none

abbrev pub negated : Option ℕ → Option ℤ
negated none = none
negated (some n) = some (sub_ℕ 0 n)

abbrev pub counted : Option ℕ → Option ℤ
counted none = none
counted (some n) = some (pos n)

-- An integer after an optional sign.
unfoldable pub signed : String → Option ℤ
unfolding number
signed String.[] = none
signed (String.◌∷◌ c s) =
    if code c == b'-'
    then negated (number s false 0)
    else if code c == b'+'
    then counted (number s false 0)
    else counted (number (String.◌∷◌ c s) false 0)

-- `int(text)`; `none` is the ValueError.
unfoldable pub parse_int : String → Option ℤ
unfolding strip signed
parse_int s = signed (strip s)

-- A digit is one character, in the order of the code points.
pub digit-code :
    (d : ℕ) → d < 10 → (c : Char) × (digit d ≡ String.◌∷◌ c String.[]) × (code c ≡ d + b'0')
unfolding digit
digit-code zero h = ("0", refl, refl)
digit-code (suc zero) h = ("1", refl, refl)
digit-code (suc (suc zero)) h = ("2", refl, refl)
digit-code (suc (suc (suc zero))) h = ("3", refl, refl)
digit-code (suc (suc (suc (suc zero)))) h = ("4", refl, refl)
digit-code (suc (suc (suc (suc (suc zero))))) h = ("5", refl, refl)
digit-code (suc (suc (suc (suc (suc (suc zero)))))) h = ("6", refl, refl)
digit-code (suc (suc (suc (suc (suc (suc (suc zero))))))) h = ("7", refl, refl)
digit-code (suc (suc (suc (suc (suc (suc (suc (suc zero)))))))) h = ("8", refl, refl)
digit-code (suc (suc (suc (suc (suc (suc (suc (suc (suc zero))))))))) h = ("9", refl, refl)
digit-code (suc (suc (suc (suc (suc (suc (suc (suc (suc (suc n)))))))))) h = absurd (omega arith)

number_step :
    (c : Char) (s : String) (b : Bool) (acc d : ℕ)
    → d < 10
    → code c ≡ d + b'0'
    → number (String.◌∷◌ c s) b acc ≡ number s true (acc * 10 + d)
unfolding number is_digit
number_step c s b acc d h k =
    let is_d : is_digit c ≡ true = ground arith in
    let value : code c - b'0' ≡ d = omega arith in rw (is_d, value) refl

number-digit :
    (b : Bool) (acc d : ℕ) (rest : String)
    → d < 10
    → number (digit d <> rest) b acc ≡ number rest true (acc * 10 + d)
number-digit b acc d rest h =
    let (c, is_c, k) = digit-code d h in
    rw (is_c, cons-append, nil-append) (number_step c rest b acc d h k)

-- The fuel of `show_ℕ` is enough: every digit is printed, and read back in its place.
number-digits :
    (b : Bool) (f n : ℕ) (rest : String) → n ≤ f → number (digits f n rest) b 0 ≡ number rest true n
unfolding digits
number-digits b zero n rest h = rw (number-digit b 0 n rest (omega arith), zero-add) refl
number-digits b (suc f) n rest h = elim (Bool-cases (ltb n 10)) [
  | inl e ↦ rw (e, number-digit b 0 n rest (ground arith), zero-add) refl
  | inr e ↦
      let last = digit (n % 10) <> rest in
      let whole : n / 10 * 10 + n % 10 ≡ n = omega arith in
      rw (e, number-digits b f (n / 10) last (ground arith))
        (number-digit true (n / 10) (n % 10) rest (omega arith)
          ∙ ap (λ k. number rest true k) whole)
]

is_digit-digit : (d : ℕ) → d < 10 → all_chars is_digit (digit d) ≡ true
unfolding is_digit
is_digit-digit d h = let (c, is_c, k) = digit-code d h in rw is_c (ground (arith, k))

is_digit-digits :
    (f n : ℕ) (rest : String)
    → n ≤ f
    → all_chars is_digit rest ≡ true
    → all_chars is_digit (digits f n rest) ≡ true
unfolding digits
is_digit-digits zero n rest h r = rw (all_chars-append, is_digit-digit n (omega arith)) r
is_digit-digits (suc f) n rest h r = elim (Bool-cases (ltb n 10)) [
  | inl e ↦ rw (e, all_chars-append, is_digit-digit n (ground arith)) r
  | inr e ↦
      let last : all_chars is_digit (digit (n % 10) <> rest) ≡ true =
        rw (all_chars-append, is_digit-digit (n % 10) (omega arith)) r in
      rw e (is_digit-digits f (n / 10) (digit (n % 10) <> rest) (ground arith) last)
]

is_digit-show_ℕ : (n : ℕ) → all_chars is_digit (show_ℕ n) ≡ true
unfolding show_ℕ
is_digit-show_ℕ n = is_digit-digits n n "" (omega arith) refl

digit_solid : (c : Char) → is_digit c ≡ true → not_space c ≡ true
unfolding is_digit is_space
digit_solid c h = ground arith

-- A printed integer holds no white space.
pub show_ℤ_solid : (z : ℤ) → all_chars not_space (show_ℤ z) ≡ true
unfolding show_ℤ is_space
show_ℤ_solid (pos n) = all_chars_mono is_digit not_space digit_solid (show_ℕ n) (is_digit-show_ℕ n)
show_ℤ_solid (negsuc n) =
    rw all_chars-append
      (all_chars_mono is_digit not_space digit_solid (show_ℕ (suc n)) (is_digit-show_ℕ (suc n)))

digits_solid : (s : String) → all_chars is_digit s ≡ true → all_chars not_space s ≡ true
digits_solid s h = all_chars_mono is_digit not_space digit_solid s h

pub show_tenths_solid : (z : ℤ) → all_chars not_space (show_tenths z) ≡ true
unfolding show_tenths is_space
show_tenths_solid (pos n) =
    let whole = digits_solid (show_ℕ (n / 10)) (is_digit-show_ℕ (n / 10)) in
    let tenth = digits_solid (digit (n % 10)) (is_digit-digit (n % 10) (omega arith)) in
    rw (all_chars-append, all_chars-append, whole, tenth) refl
show_tenths_solid (negsuc n) =
    let whole = digits_solid (show_ℕ (suc n / 10)) (is_digit-show_ℕ (suc n / 10)) in
    let tenth = digits_solid (digit (suc n % 10)) (is_digit-digit (suc n % 10) (omega arith)) in
    rw (all_chars-append, all_chars-append, all_chars-append, whole, tenth) refl

signed-digits : (s : String) → all_chars is_digit s ≡ true → signed s ≡ counted (number s false 0)
unfolding signed
signed-digits String.[] h = refl
signed-digits (String.◌∷◌ c s) h =
    let minus : code c == b'-' ≡ false = unfold is_digit in ground arith in
    let plus : code c == b'+' ≡ false = unfold is_digit in ground arith in rw (minus, plus) refl

number-show_ℕ : (n : ℕ) → number (show_ℕ n) false 0 ≡ some n
unfolding show_ℕ number
number-show_ℕ n = number-digits false n n "" (omega arith)

signed-show_ℤ : (z : ℤ) → signed (show_ℤ z) ≡ some z
unfolding show_ℤ
signed-show_ℤ (pos n) = rw (signed-digits (show_ℕ n) (is_digit-show_ℕ n), number-show_ℕ n) refl
signed-show_ℤ (negsuc n) =
    unfold signed in rw (cons-append, nil-append, number-show_ℕ (suc n)) (ground arith)

-- `int(str(z))` is `z`.
pub parse_int-show_ℤ : (z : ℤ) → parse_int (show_ℤ z) ≡ some z
unfolding parse_int
parse_int-show_ℤ z = rw (strip_solid (show_ℤ z) (show_ℤ_solid z)) (signed-show_ℤ z)

int_test : parse_int " +1_204\n" ≡ some (pos 1204)
unfolding parse_int
int_test = refl

no_int_test : parse_int "1__2" ≡ none
unfolding parse_int
no_int_test = refl
