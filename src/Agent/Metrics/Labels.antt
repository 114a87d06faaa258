-- ===== src/Agent/Metrics/Labels.antt =====
-- What a reader of the exposition format makes of a label value of agent/gpu_health_agent/metrics.py.
use Prim.Native.Char.{Char, code}
use text.Mathlib.TextLemmas.{nil-append, cons-append, append-nil, append_assoc}
use text.Mathlib.TextEquality.{Char-path}
use gpu_node_health.Base.{
  String, ◌<>◌, ◌≡◌, refl, sym, ap, ◌∙◌, Bool, true, false, Option, none, some, ◌==◌, ==_iff,
  Bool-cases, inl, inr, if◌then◌else◌,
}
use gpu_node_health.Base.Strip.{replace_char}
use gpu_node_health.Agent.Metrics.{esc}

abbrev pub Read : Type 0
Read = Option (String × String)

abbrev push : Char → Read → Read
push c none = none
push c (some (value, rest)) = some (String.◌∷◌ c value, rest)

-- The character that stands for an escape, behind the backslash.
abbrev unescaped : Char → Option Char
unescaped c =
    if code c == code "n"
    then some "\n"
    else if code c == code "\\"
    then some "\\"
    else if code c == code "\""
    then some "\""
    else none

abbrev push_escape : Option Char → Read → Read
push_escape none r = none
push_escape (some c) r = push c r

-- The reader of a label value, behind the opening quote: the value up to the closing quote, and what
-- follows it. A raw newline ends the line and is an error. The flag says that a backslash stands before.
unfoldable pub read_value : Bool → String → Read
read_value escaped String.[] = none
read_value true (String.◌∷◌ c s) = push_escape (unescaped c) (read_value false s)
read_value false (String.◌∷◌ c s) =
    let plain = push c (read_value false s) in
    let escape = read_value true s in
    if code c == code "\""
    then some ("", s)
    else if code c == code "\n"
    then none
    else if code c == code "\\"
    then escape
    else plain

replace_char-append :
    (c : Char) (by s t : String)
    → replace_char c by (s <> t) ≡ replace_char c by s <> replace_char c by t
unfolding replace_char
replace_char-append c by String.[] t = rw (nil-append, nil-append)
replace_char-append c by (String.◌∷◌ d s) t =
    rw (cons-append, replace_char-append c by s t, append_assoc)

-- One character of the value, escaped.
abbrev esc_char : Char → String
esc_char c =
    if code c == code "\\"
    then "\\\\"
    else if code c == code "\""
    then "\\\""
    else if code c == code "\n"
    then "\\n"
    else String.◌∷◌ c String.[]

esc_one : (c : Char) → esc (String.◌∷◌ c String.[]) ≡ esc_char c
unfolding esc replace_char
esc_one c = elim (Bool-cases (code c == code "\\")) [
  | inl b ↦ rw b
  | inr nb ↦
      rw (nb, append-nil)
        (elim (Bool-cases (code c == code "\"")) [
          | inl q ↦ rw q
          | inr nq ↦
              rw (nq, append-nil)
                (elim (Bool-cases (code c == code "\n")) [
                  | inl l ↦ rw l
                  | inr nl ↦ rw (nl, append-nil)
                ])
        ])
]

esc-append : (s t : String) → esc (s <> t) ≡ esc s <> esc t
unfolding esc
esc-append s t = rw (replace_char-append, replace_char-append, replace_char-append)

one_append : (c : Char) (s : String) → String.◌∷◌ c String.[] <> s ≡ String.◌∷◌ c s
one_append c s = cons-append c "" s ∙ ap (String.◌∷◌ c) (nil-append s)

esc_cons : (c : Char) (s : String) → esc (String.◌∷◌ c s) ≡ esc_char c <> esc s
esc_cons c s =
    ap esc (sym (one_append c s))
    ∙ esc-append (String.◌∷◌ c String.[]) s
    ∙ ap (λ e. e <> esc s) (esc_one c)

two_append :
    (c d : Char) (t : String)
    → String.◌∷◌ c (String.◌∷◌ d String.[]) <> t ≡ String.◌∷◌ c (String.◌∷◌ d t)
two_append c d t = cons-append c (String.◌∷◌ d "") t ∙ ap (String.◌∷◌ c) (one_append d t)

read_char :
    (c : Char) (t : String) → read_value false (esc_char c <> t) ≡ push c (read_value false t)
unfolding read_value
read_char c t = elim (Bool-cases (code c == code "\\")) [
  | inl b ↦
      rw (b, two_append "\\" "\\" t)
        (ap (λ d. push d (read_value false t)) (sym (Char-path c "\\" ((==_iff _ _).0 b))))
  | inr nb ↦ elim (Bool-cases (code c == code "\"")) [
    | inl q ↦
        rw (nb, q, two_append "\\" "\"" t)
          (ap (λ d. push d (read_value false t)) (sym (Char-path c "\"" ((==_iff _ _).0 q))))
    | inr nq ↦ elim (Bool-cases (code c == code "\n")) [
      | inl l ↦
          rw (nb, nq, l, two_append "\\" "n" t)
            (ap (λ d. push d (read_value false t)) (sym (Char-path c "\n" ((==_iff _ _).0 l))))
      | inr nl ↦ rw (nb, nq, nl, one_append c t) (rw (nb, nq, nl))
    ]
  ]
]

esc_empty : esc "" ≡ ""
unfolding esc replace_char
esc_empty = refl

-- A label value cannot break out of its quotes: whatever the value is, a reader of the exposition format
-- that meets the escaped value, its closing quote and any further text gets exactly the value back and
-- goes on with that text.
pub read_value-esc :
    (value rest : String) → read_value false (esc value <> ("\"" <> rest)) ≡ some (value, rest)
unfolding read_value
read_value-esc String.[] rest =
    ap (λ e. read_value false (e <> ("\"" <> rest))) esc_empty
    ∙ ap (read_value false) (nil-append ("\"" <> rest) ∙ one_append "\"" rest)
read_value-esc (String.◌∷◌ c s) rest =
    ap (λ e. read_value false (e <> ("\"" <> rest))) (esc_cons c s)
    ∙ ap (read_value false) (append_assoc (esc_char c) (esc s) ("\"" <> rest))
    ∙ read_char c (esc s <> ("\"" <> rest))
    ∙ ap (push c) (read_value-esc s rest)
