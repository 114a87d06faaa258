-- ===== src/Agent/PatchCounters/Published.antt =====
-- What agent/gpu_health_agent/signals/patchctr.py publishes for each kind of file.
use Prim.Native.Char.{Char, code}
use text.Mathlib.TextLemmas.{cons-append}
use gpu_node_health.Base.{
  ℕ, ◌+◌, ◌*◌, ◌-◌, String, ◌<>◌, Bool, true, false, ◌&&◌, ◌||◌, ◌==◌, ◌≡◌, refl, ◌∙◌, Option, none,
  some, arith, contains, Bool-cases, inl, inr,
}
use gpu_node_health.Base.Int.{ℤ, negsuc}
use gpu_node_health.Base.Dict.{get}
use gpu_node_health.Base.Show.{show_ℤ}
use gpu_node_health.Base.Chars.{is_digit, is_space, all_chars}
use gpu_node_health.Base.Strip.{strip, lstrip, rstrip, keep, not_space}
use gpu_node_health.Base.Parse.{parse_int, signed, number, parse_int-show_ℤ, show_ℤ_solid}
use gpu_node_health.Agent.PatchCounters.{
  Directory, holds, absent, unreadable, known_counters, counter_value, collect, counter-collect,
}

-- A character that an integer, and the white space around it, may hold.
abbrev pub is_numeral : Char → Bool
is_numeral c =
    is_digit c || code c == code "+" || code c == code "-" || code c == code "_" || is_space c

-- What is published of a name, by the directory and the file of that name: the number that the kernel
-- prints, -1 for a file that holds another character or cannot be read, and nothing for a file that is not
-- there, for another name, and where the directory is missing.
pub data Published (dir : Directory) (name : String) : Option ℤ → Type 0 where
  printed :
      (z : ℤ)
      → dir.is_dir ≡ true
      → contains name known_counters ≡ true
      → dir.read name ≡ holds (show_ℤ z <> "\n")
      → Published dir name (some z)
  garbled :
      (text : String)
      → dir.is_dir ≡ true
      → contains name known_counters ≡ true
      → dir.read name ≡ holds text
      → all_chars is_numeral text ≡ false
      → Published dir name (some (negsuc 0))
  blank :
      (text : String)
      → dir.is_dir ≡ true
      → contains name known_counters ≡ true
      → dir.read name ≡ holds text
      → all_chars is_space text ≡ true
      → Published dir name (some (negsuc 0))
  locked :
      dir.is_dir ≡ true
      → contains name known_counters ≡ true
      → dir.read name ≡ unreadable
      → Published dir name (some (negsuc 0))
  gone : dir.read name ≡ absent → Published dir name none
  unlisted : contains name known_counters ≡ false → Published dir name none
  no_directory : dir.is_dir ≡ false → Published dir name none

-- A text with another character is no integer.
number_foreign :
    (s : String) (after : Bool) (acc : ℕ)
    → all_chars is_numeral s ≡ false
    → number s after acc ≡ none
unfolding number
number_foreign String.[] after acc h = cc
number_foreign (String.◌∷◌ c s) after acc h = elim (Bool-cases (is_numeral c)) [
  | inl e ↦
      let rest : all_chars is_numeral s ≡ false = ground arith in
      let more = number_foreign s true (acc * 10 + (code c - b'0')) rest in
      let skip = number_foreign s false acc rest in rw (number, more, skip) (ground arith)
  | inr e ↦ ground arith
]

signed_foreign : (s : String) → all_chars is_numeral s ≡ false → signed s ≡ none
unfolding signed number
signed_foreign String.[] h = cc
signed_foreign (String.◌∷◌ c s) h = elim (Bool-cases (is_numeral c)) [
  | inl e ↦
      let rest : all_chars is_numeral s ≡ false = ground arith in
      let digits = number_foreign s true (0 * 10 + (code c - b'0')) rest in
      let sign = number_foreign s false 0 rest in rw (signed, digits, sign) (ground arith)
  | inr e ↦ ground arith
]

lstrip_foreign :
    (s : String) → all_chars is_numeral s ≡ false → all_chars is_numeral (lstrip s) ≡ false
unfolding lstrip
lstrip_foreign String.[] h = h
lstrip_foreign (String.◌∷◌ c s) h = ground (arith, lstrip_foreign s)

keep_foreign :
    (c : Char) (t : String)
    → (is_numeral c && all_chars is_numeral t) ≡ false
    → all_chars is_numeral (keep c t) ≡ false
keep_foreign c String.[] h = ground arith
keep_foreign c (String.◌∷◌ d t) h = h

rstrip_foreign :
    (s : String) → all_chars is_numeral s ≡ false → all_chars is_numeral (rstrip s) ≡ false
unfolding rstrip
rstrip_foreign String.[] h = h
rstrip_foreign (String.◌∷◌ c s) h = keep_foreign c (rstrip s) (ground (arith, rstrip_foreign s))

strip_foreign :
    (s : String) → all_chars is_numeral s ≡ false → all_chars is_numeral (strip s) ≡ false
unfolding strip
strip_foreign s h = rstrip_foreign (lstrip s) (lstrip_foreign s h)

parse_int_foreign : (s : String) → all_chars is_numeral s ≡ false → parse_int s ≡ none
unfolding parse_int
parse_int_foreign s h = signed_foreign (strip s) (strip_foreign s h)

lstrip_blank : (s : String) → all_chars is_space s ≡ true → lstrip s ≡ ""
unfolding lstrip
lstrip_blank String.[] h = refl
lstrip_blank (String.◌∷◌ c s) h = ground (arith, lstrip_blank s)

strip_blank : (s : String) → all_chars is_space s ≡ true → strip s ≡ ""
unfolding strip
strip_blank s h = rw (lstrip_blank s h) (unfold rstrip in refl)

parse_int_empty : parse_int "" ≡ none
unfolding parse_int strip lstrip rstrip signed
parse_int_empty = refl

rstrip_line : (t : String) → all_chars not_space t ≡ true → rstrip (t <> "\n") ≡ t
unfolding rstrip is_space
rstrip_line String.[] h = refl
rstrip_line (String.◌∷◌ c String.[]) h =
    let rest : rstrip ("" <> "\n") ≡ "" = refl in rw (cons-append, rest) (ground arith)
rstrip_line (String.◌∷◌ c (String.◌∷◌ d t)) h =
    rw (cons-append, rstrip, rstrip_line (String.◌∷◌ d t) (ground arith)) refl

strip_line : (t : String) → all_chars not_space t ≡ true → strip (t <> "\n") ≡ t
unfolding strip
strip_line String.[] h = unfold lstrip rstrip is_space in refl
strip_line (String.◌∷◌ c t) h =
    let solid : is_space c ≡ false = ground arith in
    let kept : lstrip ((String.◌∷◌ c t) <> "\n") ≡ (String.◌∷◌ c t) <> "\n" =
      unfold lstrip in rw (cons-append, solid) refl in
    rw kept (rstrip_line (String.◌∷◌ c t) h)

-- Which counters are published: for each name, and whatever the directory and its files hold, what
-- `Published` says. That leaves out only a file that holds nothing but numerals, signs, underscores and
-- white space and is not what the kernel prints.
pub Published-collect :
    (dir : Directory) (name : String) (o : Option ℤ)
    → Published dir name o
    → get name (collect dir).counters ≡ o
unfolding counter_value
Published-collect dir name o (printed z d c r) =
    counter-collect dir name
    ∙ rw (d, c, r, strip_line (show_ℤ z) (show_ℤ_solid z), parse_int-show_ℤ z) refl
Published-collect dir name o (garbled text d c r h) =
    counter-collect dir name
    ∙ rw (d, c, r, parse_int_foreign (strip text) (strip_foreign text h)) refl
Published-collect dir name o (blank text d c r h) =
    counter-collect dir name ∙ rw (d, c, r, strip_blank text h, parse_int_empty) refl
Published-collect dir name o (locked d c r) = counter-collect dir name ∙ rw (d, c, r) refl
Published-collect dir name o (gone r) = counter-collect dir name ∙ ground (arith, r)
Published-collect dir name o (unlisted c) = counter-collect dir name ∙ ground (arith, c)
Published-collect dir name o (no_directory d) = counter-collect dir name ∙ rw d refl
