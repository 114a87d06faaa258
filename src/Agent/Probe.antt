-- ===== src/Agent/Probe.antt =====
-- agent/gpu_health_agent/signals/exporter.py: what `ExporterProbe.collect` reads in the body that the exporter
-- serves. The two regular expressions are functions on texts; `float` is an argument.
pub mod Labels
pub mod Matches
pub mod Samples
use Prim.Native.Char.{Char, code}
use gpu_node_health.Base.{
  ℕ, zero, suc, ◌+◌, String, Bool, true, false, not, ◌&&◌, ◌||◌, ◌==◌, Option, none, some, List, [],
  ◌∷◌, ◌++◌, ◌=s=◌, if◌then◌else◌,
}
use gpu_node_health.Base.Int.{ℤ}
use gpu_node_health.Base.Dict.{Dict, get, put, default_to}
use gpu_node_health.Base.Lists.{chars}
use gpu_node_health.Base.Chars.{within, is_digit, is_space}
use gpu_node_health.Base.Text.{starts_with}
use gpu_node_health.Base.Lines.{splitlines}
use gpu_node_health.Base.Cut.{words}

-- What `float(text)` gives: a finite number with `int` of it and whether it is at least 1, or none.
pub data Float : Type 0 where
  finite : ℤ → Bool → Float
  infinite : Bool → Float
  nan : Float

-- `[a-zA-Z_]`
unfoldable pub is_letter : Char → Bool
is_letter c = within b'a' b'z' c || within b'A' b'Z' c || code c == b'_'

-- `[a-zA-Z0-9_]`
unfoldable pub is_key_char : Char → Bool
unfolding is_letter is_digit
is_key_char c = is_letter c || is_digit c

-- What the group `labels` takes, up to the last brace behind which white space and one word stand, and
-- that word.
abbrev pub value_after : String → List String → Option String
value_after String.[] ws = none
value_after (String.◌∷◌ c s) (w ∷ []) = if is_space c then some w else none
value_after (String.◌∷◌ c s) ws = none

abbrev pub found_value : Option String → Option (String × String)
found_value none = none
found_value (some v) = some ("", v)

abbrev pub labels_grow :
    Char → Option (String × String) → Option (String × String) → Option (String × String)
labels_grow c (some (l, v)) here = some (String.◌∷◌ c l, v)
labels_grow c none here = if code c == b'}' then here else none

unfoldable pub labels_and_value : String → Option (String × String)
unfolding words is_space
labels_and_value String.[] = none
labels_and_value (String.◌∷◌ c s) =
    labels_grow c (labels_and_value s) (found_value (value_after s (words s)))

pub record Line : Type 0 where
  pub name : String
  pub labels : String
  pub value : String

abbrev pub with_name : Char → Option Line → Option Line
with_name c none = none
with_name c (some line) = some (record line { name = String.◌∷◌ c line.name })

abbrev pub line_of : Option (String × String) → Option Line
line_of none = none
line_of (some (l, v)) = some (record { name = ""; labels = l; value = v })

-- `[a-zA-Z0-9_:]`
abbrev pub is_name_char : Char → Bool
is_name_char c = is_key_char c || code c == b':'

-- The pattern `_SAMPLE` behind the first character of the name.
unfoldable pub sample_rest : String → Option Line
unfolding labels_and_value is_key_char
sample_rest String.[] = none
sample_rest (String.◌∷◌ c s) =
    let more = with_name c (sample_rest s) in
    if code c == b'{' then line_of (labels_and_value s) else if is_name_char c then more else none

-- `_SAMPLE.match(line)`
unfoldable pub match_sample : String → Option Line
unfolding sample_rest is_letter
match_sample String.[] = none
match_sample (String.◌∷◌ c s) =
    if is_letter c || code c == b':' then with_name c (sample_rest s) else none

abbrev pub push : Char → Option (String × String) → Option (String × String)
push c none = none
push c (some (v, rest)) = some (String.◌∷◌ c v, rest)

-- The group `v` of `_LABEL` up to its closing quote, and what follows it. The flag says that a backslash
-- stands before.
unfoldable pub quoted_value : String → Bool → Option (String × String)
quoted_value String.[] escaped = none
quoted_value (String.◌∷◌ c s) true =
    let next = push c (quoted_value s false) in if code c == b'\n' then none else next
quoted_value (String.◌∷◌ c s) false =
    let next = push c (quoted_value s false) in
    let escape = push c (quoted_value s true) in
    if code c == b'"' then some ("", s) else if code c == b'\\' then escape else next

pub record Label : Type 0 where
  pub key : String
  pub value : String
  pub rest : String

abbrev pub with_key : Char → Option Label → Option Label
with_key c none = none
with_key c (some l) = some (record l { key = String.◌∷◌ c l.key })

abbrev pub label_of : Option (String × String) → Option Label
label_of none = none
label_of (some (v, rest)) = some (record { key = ""; value = v; rest = rest })

-- Behind the equals sign a quote has to stand.
abbrev pub after_equals : String → Option Label
after_equals String.[] = none
after_equals (String.◌∷◌ c s) = if code c == b'"' then label_of (quoted_value s false) else none

-- `_LABEL` behind the first character of the key.
unfoldable pub label_rest : String → Option Label
unfolding quoted_value is_key_char
label_rest String.[] = none
label_rest (String.◌∷◌ c s) =
    let more = with_key c (label_rest s) in
    if code c == b'=' then after_equals s else if is_key_char c then more else none

-- A match of `_LABEL` at the start of a text.
unfoldable pub label_here : String → Option Label
unfolding label_rest is_letter
label_here String.[] = none
label_here (String.◌∷◌ c s) = if is_letter c then with_key c (label_rest s) else none

-- The text from the second character on.
abbrev pub tail : String → String
tail String.[] = ""
tail (String.◌∷◌ c s) = s

-- `_LABEL.finditer(raw)`, with fuel for one step at each character.
unfoldable pub find_labels : ℕ → String → List (String × String)
find_labels zero s = []
find_labels (suc f) s = elim (label_here s) [
  | none ↦ find_labels f (tail s)
  | some l ↦ (l.key, l.value) ∷ find_labels f l.rest
]

-- `v.replace('\"', '"')`
unfoldable pub unquote : String → String
unquote String.[] = ""
unquote (String.◌∷◌ c String.[]) = String.◌∷◌ c String.[]
unquote (String.◌∷◌ c (String.◌∷◌ d s)) =
    let rest = unquote s in
    let more = unquote (String.◌∷◌ d s) in
    if (code c == b'\\') && (code d == b'"') then String.◌∷◌ d rest else String.◌∷◌ c more

abbrev pub dict_of : List (String × String) → Dict String → Dict String
dict_of [] d = d
dict_of ((k, v) ∷ ls) d = dict_of ls (put k (unquote v) d)

-- `_parse_labels`
unfoldable pub parse_labels : String → Dict String
unfolding find_labels
parse_labels raw = dict_of (find_labels (chars raw) raw) []

pub record Gpu : Type 0 where
  pub gpu_id : String
  pub namespace : String
  pub pod : String
  pub container : String

abbrev pub gpu_of : Dict String → Gpu
gpu_of labels = record {
  gpu_id = default_to "?" (get "gpu_id" labels);
  namespace = default_to "" (get "namespace" labels);
  pod = default_to "" (get "pod" labels);
  container = default_to "" (get "container" labels);
}

-- The local variables of `collect`.
pub record Probe : Type 0 where
  pub healthy : ℕ
  pub unhealthy : List Gpu
  pub gpu_total : ℤ

abbrev pub at_least_one : Float → Bool
at_least_one (finite n b) = b
at_least_one (infinite negative) = not negative
at_least_one nan = false

-- `int(float(value))`: an infinite value raises OverflowError, which nothing catches.
abbrev pub with_total : Option Float → Probe → Option Probe
with_total none p = some p
with_total (some (finite n b)) p = some (record p { gpu_total = n })
with_total (some (infinite negative)) p = none
with_total (some nan) p = some p

abbrev pub count_gpu : Option Float → String → Probe → Probe
count_gpu none labels p = p
count_gpu (some x) labels p =
    if at_least_one x
    then record p { healthy = p.healthy + 1 }
    else record p { unhealthy = p.unhealthy ++ gpu_of (parse_labels labels) ∷ [] }

module _ (float : String → Option Float) where
  -- The body of the loop behind the match; `none` is an exception.
  abbrev pub read_sample : Option Line → Probe → Option Probe
  read_sample none p = some p
  read_sample (some line) p =
      if line.name =s= "gpu_nodes_total"
      then with_total (float line.value) p
      else if line.name =s= "gpu_health"
      then some (count_gpu (float line.value) line.labels p)
      else some p

  unfoldable pub read_line : String → Probe → Option Probe
  read_line line p =
      if starts_with line "#" || line =s= "" then some p else read_sample (match_sample line) p

  unfoldable pub read_lines : List String → Probe → Option Probe
  read_lines [] p = some p
  read_lines (line ∷ lines) p = elim (read_line line p) [
    | none ↦ none
    | some p' ↦ read_lines lines p'
  ]

  -- The part of `collect` behind the scrape.
  unfoldable pub read_body : String → Option Probe
  read_body body =
      read_lines (splitlines body) (record { healthy = 0; unhealthy = []; gpu_total = ℤ.pos 0 })
