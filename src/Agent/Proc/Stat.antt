-- ===== src/Agent/Proc/Stat.antt =====
-- What `_read_stat` of agent/gpu_health_agent/signals/dstate.py reads of a line that the kernel wrote.
use text.Mathlib.TextLemmas.{nil-append, cons-append, append_assoc}
use gpu_node_health.Base.{
  ◌+◌, ◌-◌, ◌≤◌, String, ◌<>◌, true, false, ◌≡◌, refl, sym, ap, ◌∙◌, some, List, [], ◌∷◌, ltb,
  arith,
}
use gpu_node_health.Base.Int.{ℤ}
use gpu_node_health.Base.Show.{show_ℤ}
use gpu_node_health.Base.Lists.{
  length, All, join, chars, drop_chars, drop_chars-chars, chars-append,
}
use gpu_node_health.Base.Chars.{all_chars-append}
use gpu_node_health.Base.Parse.{parse_int-show_ℤ}
use gpu_node_health.Base.Matching.{without}
use gpu_node_health.Base.Cut.{
  find_char, find_char_first, rfind_char, rfind_char_last, slice, take_chars-chars, words-join,
  is_word, get_elem?,
}
use gpu_node_health.Agent.Proc.{read_stat}

-- A line of /proc/<pid>/stat: the number, the name in parentheses, and what follows it.
abbrev pub line_with : String → String → String → String
line_with pid comm body = pid <> ("(" <> (comm <> (")" <> (" " <> body))))

-- The fields from the state on.
abbrev pub stat_line : String → String → List String → String
stat_line pid comm fields = line_with pid comm (join " " fields <> "\n")

module _ (pid comm body : String) where
  opened : String
  opened = pid <> "("

  line_opened : line_with pid comm body ≡ opened <> (comm <> (")" <> (" " <> body)))
  unfolding opened
  line_opened = sym (append_assoc pid "(" (comm <> (")" <> (" " <> body))))

  line_closed : line_with pid comm body ≡ (opened <> comm) <> (")" <> (" " <> body))
  line_closed = line_opened ∙ sym (append_assoc opened comm (")" <> (" " <> body)))

  line_read : line_with pid comm body ≡ ((opened <> comm) <> ") ") <> body
  line_read =
      line_closed
      ∙ (ap (λ t. (opened <> comm) <> t) (sym (append_assoc ")" " " body))
          ∙ sym (append_assoc (opened <> comm) ") " body))

  chars-opened : chars opened ≡ chars pid + 1
  unfolding opened
  chars-opened = chars-append pid "("

  find_open : without "(" pid ≡ true → find_char "(" (line_with pid comm body) ≡ some (chars pid)
  find_open h =
      rw (cons-append, nil-append) (find_char_first "(" pid (comm <> (")" <> (" " <> body))) h)

  find_close :
      without ")" body ≡ true
      → rfind_char ")" (line_with pid comm body) ≡ some (chars (opened <> comm))
  find_close h =
      let shape : ")" <> (" " <> body) ≡ String.◌∷◌ ")" (" " <> body) =
        rw (cons-append, nil-append) refl in
      let last = rfind_char_last ")" (opened <> comm) (" " <> body) (rw all_chars-append h) in
      rw (line_closed, shape) last

  name_read : slice (chars pid + 1) (chars (opened <> comm)) (line_with pid comm body) ≡ comm
  unfolding slice
  name_read =
      let width : chars (opened <> comm) - (chars pid + 1) ≡ chars comm =
        omega (arith, chars-append opened comm, chars-opened) in
      rw (width, line_opened, ← chars-opened, drop_chars-chars)
        (take_chars-chars comm (")" <> (" " <> body)))

  body_read : drop_chars (chars (opened <> comm) + 2) (line_with pid comm body) ≡ body
  body_read =
      let end : chars (opened <> comm) + 2 ≡ chars ((opened <> comm) <> ") ") =
        sym (chars-append (opened <> comm) ") ") in
      rw (end, line_read) (drop_chars-chars ((opened <> comm) <> ") ") body)

  in_order : ltb (chars (opened <> comm)) (chars pid) ≡ false
  in_order = ground (arith, chars-append opened comm, chars-opened)

-- A field that holds no white space and no closing parenthesis.
abbrev pub IsField : String → Type 0
IsField f = (is_word f ≡ true) × (without ")" f ≡ true)

unclosed : (fs : List String) → All IsField fs → without ")" (join " " fs <> "\n") ≡ true
unclosed [] h = refl
unclosed (f ∷ []) h = rw (all_chars-append, h.0.1) refl
unclosed (f ∷ g ∷ fs) h =
    rw
      (append_assoc, append_assoc, all_chars-append, all_chars-append, h.0.1, unclosed (g ∷ fs) h.1)
      refl

fields_words : (fs : List String) → All IsField fs → All (λ f. is_word f ≡ true) fs
fields_words [] h = tt
fields_words (f ∷ fs) h = (h.0.0, fields_words fs h.1)

-- The kernel's line is read back whatever the name of the thread is, parentheses, spaces and line ends
-- in it included: if the number before the name holds no opening parenthesis, and there are at least
-- twenty fields, each without white space and without a closing parenthesis, the first of which is
-- the state and the twentieth the print of an integer, then the name, the state and that integer are
-- the result.
pub read_stat-stat_line :
    (pid comm state : String) (fields : List String) (z : ℤ)
    → without "(" pid ≡ true
    → All IsField (state ∷ fields)
    → 19 ≤ length fields
    → get_elem? (state ∷ fields) 19 ≡ some (show_ℤ z)
    → read_stat (some (stat_line pid comm (state ∷ fields)))
      ≡ some (record { comm = comm; state = state; starttime = z })
unfolding read_stat
read_stat-stat_line pid comm state fields z h f n g =
    let fs = state ∷ fields in
    let body = join " " fs <> "\n" in
    let enough : ltb (length fs) 20 ≡ false = ground arith in
    rw
      (
        find_close pid comm body (unclosed fs f),
        find_open pid comm body h,
        in_order pid comm body,
        body_read pid comm body,
        words-join state fields (fields_words fs f),
        enough,
        g,
        parse_int-show_ℤ z,
        name_read pid comm body,
      )
      refl
