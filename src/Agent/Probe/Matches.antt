-- ===== src/Agent/Probe/Matches.antt =====
-- What the pattern `_SAMPLE` of agent/gpu_health_agent/signals/exporter.py takes of a sample in its form.
use Prim.Native.Char.{Char, code}
use text.Mathlib.TextLemmas.{nil-append, cons-append}
use gpu_node_health.Base.{
  String, ◌<>◌, Bool, true, false, ◌&&◌, ◌||◌, ◌==◌, ◌≡◌, refl, Option, none, some, [], ◌∷◌, arith,
}
use gpu_node_health.Base.Chars.{all_chars, is_space, is_digit}
use gpu_node_health.Base.Matching.{without, cons-ne-nil}
use gpu_node_health.Base.Cut.{words, is_word, glue}
use gpu_node_health.Agent.Probe.{
  Float, is_letter, is_key_char, is_name_char, labels_and_value, sample_rest, match_sample, Probe,
  read_sample, read_line,
}

-- A word is the only word of itself.
words_alone : (w : String) → is_word w ≡ true → words w ≡ w ∷ []
unfolding words
words_alone String.[] h = cc
words_alone (String.◌∷◌ c String.[]) h = ground arith
words_alone (String.◌∷◌ c (String.◌∷◌ d w)) h =
    let later = words_alone (String.◌∷◌ d w) (ground arith) in
    rw (words, later, glue) (ground arith)

no_brace : (s : String) → without "}" s ≡ true → labels_and_value s ≡ none
unfolding labels_and_value
no_brace String.[] h = refl
no_brace (String.◌∷◌ c s) h =
    let other : code c == code "}" ≡ false = ground arith in
    rw (labels_and_value, no_brace s (ground arith), other) refl

-- A value as it stands behind the labels.
abbrev pub IsValue : String → Type 0
IsValue v = (is_word v ≡ true) × (without "}" v ≡ true)

labels_end :
    (v : String) → IsValue v → labels_and_value (String.◌∷◌ "}" (String.◌∷◌ " " v)) ≡ some ("", v)
unfolding labels_and_value
labels_end v (w, u) =
    let blank : words (String.◌∷◌ " " v) ≡ v ∷ [] =
      unfold words is_space in rw (words_alone v w) refl in
    let later = no_brace (String.◌∷◌ " " v) (ground arith) in
    rw (labels_and_value, later, blank) (unfold is_space in refl)

labels_and_value_lem :
    (raw v : String)
    → IsValue v
    → labels_and_value (raw <> String.◌∷◌ "}" (String.◌∷◌ " " v)) ≡ some (raw, v)
unfolding labels_and_value
labels_and_value_lem String.[] v h = rw nil-append (labels_end v h)
labels_and_value_lem (String.◌∷◌ c raw) v h =
    rw (cons-append, labels_and_value, labels_and_value_lem raw v h) refl

-- A name of a metric.
abbrev pub is_name : String → Bool
is_name String.[] = false
is_name (String.◌∷◌ c n) = (is_letter c || code c == code ":") && all_chars is_name_char n

not_brace : (c : Char) → is_name_char c ≡ true → code c == code "{" ≡ false
unfolding is_key_char is_letter is_digit
not_brace c h = ground arith

not_comment : (c : Char) → (is_letter c || code c == code ":") ≡ true → code c == code "#" ≡ false
unfolding is_letter
not_comment c h = ground arith

-- `name{labels} value`
abbrev pub sample_line : String → String → String → String
sample_line n raw v = n <> String.◌∷◌ "{" (raw <> String.◌∷◌ "}" (String.◌∷◌ " " v))

sample_rest_lem :
    (n raw v : String)
    → all_chars is_name_char n ≡ true
    → IsValue v
    → sample_rest (sample_line n raw v) ≡ some (record { name = n; labels = raw; value = v })
unfolding sample_rest
sample_rest_lem String.[] raw v h w =
    rw (nil-append, sample_rest, labels_and_value_lem raw v w) refl
sample_rest_lem (String.◌∷◌ c n) raw v h w =
    let other = not_brace c (ground arith) in
    let here : is_name_char c ≡ true = ground arith in
    rw (cons-append, sample_rest, other, here, sample_rest_lem n raw v (ground arith) w) refl

match_sample_lem :
    (n raw v : String)
    → is_name n ≡ true
    → IsValue v
    → match_sample (sample_line n raw v) ≡ some (record { name = n; labels = raw; value = v })
unfolding match_sample
match_sample_lem String.[] raw v h w = cc
match_sample_lem (String.◌∷◌ c n) raw v h w =
    let start : (is_letter c || code c == code ":") ≡ true = ground arith in
    rw (cons-append, match_sample, start, sample_rest_lem n raw v (ground arith) w) refl

module _ (float : String → Option Float) where
  pub read_line-sample_line :
      (n raw v : String) (p : Probe)
      → is_name n ≡ true
      → IsValue v
      → read_line float (sample_line n raw v) p
        ≡ read_sample float (some (record { name = n; labels = raw; value = v })) p
  unfolding read_line
  read_line-sample_line String.[] raw v p h w = cc
  read_line-sample_line (String.◌∷◌ c n) raw v p h w =
      let other = not_comment c (ground arith) in
      let matched = match_sample_lem (String.◌∷◌ c n) raw v h w in
      let shape : sample_line (String.◌∷◌ c n) raw v ≡ String.◌∷◌ c (sample_line n raw v) =
        rw cons-append refl in
      let read = rw shape at matched in
      rw (shape, read_line, other, cons-ne-nil c (sample_line n raw v), read) refl
