-- ===== src/Agent/Probe/Labels.antt =====
-- What `_parse_labels` of agent/gpu_health_agent/signals/exporter.py reads of labels that are written as
-- the text format of Prometheus asks.
use Prim.Native.Char.{Char, code}
use text.Mathlib.TextLemmas.{nil-append, cons-append}
use gpu_node_health.Base.{
  ℕ, zero, suc, ◌+◌, ◌*◌, ◌≤◌, String, ◌<>◌, Bool, true, false, ◌&&◌, ◌==◌, ◌≡◌, refl, none, some,
  List, [], ◌∷◌, arith, map, Bool-cases, inl, inr, ◌=s=◌, eq_iff, eq_refl,
}
use gpu_node_health.Base.Lists.{All, length, chars, chars-append}
use gpu_node_health.Base.Chars.{all_chars, is_digit}
use gpu_node_health.Base.Strip.{replace_char}
use gpu_node_health.Base.Matching.{without, cons_eq}
use gpu_node_health.Base.Dict.{Dict, put}
use gpu_node_health.Agent.Probe.{
  Label, is_letter, is_key_char, quoted_value, label_rest, label_here, find_labels, unquote,
  dict_of, parse_labels,
}

-- The quotes of a value are escaped.
abbrev pub quoted : String → String
quoted v = replace_char "\"" "\\\"" v

quoted_quote :
    (c : Char) (v : String)
    → code c == code "\"" ≡ true
    → quoted (String.◌∷◌ c v) ≡ String.◌∷◌ "\\" (String.◌∷◌ "\"" (quoted v))
unfolding replace_char
quoted_quote c v e = rw (e, cons-append, cons-append, nil-append) refl

quoted_other :
    (c : Char) (v : String)
    → code c == code "\"" ≡ false
    → quoted (String.◌∷◌ c v) ≡ String.◌∷◌ c (quoted v)
unfolding replace_char
quoted_other c v e = rw (e, cons-append, nil-append) refl

quoted_value_lem :
    (v s : String)
    → without "\\" v ≡ true
    → quoted_value (quoted v <> String.◌∷◌ "\"" s) false ≡ some (quoted v, s)
unfolding quoted_value
quoted_value_lem String.[] s h = unfold replace_char in rw nil-append refl
quoted_value_lem (String.◌∷◌ c v) s h =
    let later = quoted_value_lem v s (ground arith) in
    elim (Bool-cases (code c == code "\"")) [
      | inl e ↦ rw (quoted_quote c v e, cons-append, cons-append, later) refl
      | inr e ↦
          let plain : code c == code "\\" ≡ false = ground arith in
          rw (quoted_other c v e, cons-append, quoted_value, later, e, plain) refl
    ]

unquote_plain :
    (c : Char) (s : String)
    → code c == code "\\" ≡ false
    → unquote (String.◌∷◌ c s) ≡ String.◌∷◌ c (unquote s)
unfolding unquote
unquote_plain c String.[] h = refl
unquote_plain c (String.◌∷◌ d s) h = rw h refl

pub unquote-quoted : (v : String) → without "\\" v ≡ true → unquote (quoted v) ≡ v
unfolding unquote
unquote-quoted String.[] h = unfold replace_char in refl
unquote-quoted (String.◌∷◌ c v) h =
    let later = unquote-quoted v (ground arith) in
    elim (Bool-cases (code c == code "\"")) [
      | inl e ↦
          let same : ((String.◌∷◌ "\"" v) =s= (String.◌∷◌ c v)) ≡ true =
            rw cons_eq (ground (arith, eq_refl v)) in
          rw (quoted_quote c v e, later) ((eq_iff (String.◌∷◌ "\"" v) (String.◌∷◌ c v)).0 same)
      | inr e ↦
          let plain : code c == code "\\" ≡ false = ground arith in
          rw (quoted_other c v e, unquote_plain c (quoted v) plain, later) refl
    ]

-- A name of a label.
abbrev pub is_key : String → Bool
is_key String.[] = false
is_key (String.◌∷◌ c k) = is_letter c && all_chars is_key_char k

not_equals : (c : Char) → is_key_char c ≡ true → code c == code "=" ≡ false
unfolding is_key_char is_letter is_digit
not_equals c h = ground arith

-- `k="v"`, and what follows it.
abbrev pub label_text : String → String → String → String
label_text k v s = k <> String.◌∷◌ "=" (String.◌∷◌ "\"" (quoted v <> String.◌∷◌ "\"" s))

label_rest_lem :
    (k v s : String)
    → all_chars is_key_char k ≡ true
    → without "\\" v ≡ true
    → label_rest (label_text k v s) ≡ some (record { key = k; value = quoted v; rest = s })
unfolding label_rest
label_rest_lem String.[] v s h p = rw (nil-append, quoted_value_lem v s p) refl
label_rest_lem (String.◌∷◌ c k) v s h p =
    let other = not_equals c (ground arith) in
    let here : is_key_char c ≡ true = ground arith in
    rw (cons-append, label_rest, other, here, label_rest_lem k v s (ground arith) p) refl

label_here_lem :
    (k v s : String)
    → is_key k ≡ true
    → without "\\" v ≡ true
    → label_here (label_text k v s) ≡ some (record { key = k; value = quoted v; rest = s })
unfolding label_here
label_here_lem String.[] v s h p = cc
label_here_lem (String.◌∷◌ c k) v s h p =
    let here : is_letter c ≡ true = ground arith in
    rw (cons-append, here, label_rest_lem k v s (ground arith) p) refl

-- The labels as they stand between the braces.
abbrev pub labels_text : List (String × String) → String
labels_text [] = ""
labels_text ((k, v) ∷ []) = label_text k v ""
labels_text ((k, v) ∷ l ∷ ls) = label_text k v (String.◌∷◌ "," (labels_text (l ∷ ls)))

-- A label with a name of its form and no backslash in its value.
abbrev pub IsLabel : String × String → Type 0
IsLabel (k, v) = (is_key k ≡ true) × (without "\\" v ≡ true)

abbrev pub escaped : String × String → String × String
escaped (k, v) = (k, quoted v)

find_labels_end : (f : ℕ) → find_labels f "" ≡ []
unfolding find_labels label_here
find_labels_end zero = refl
find_labels_end (suc f) = find_labels_end f

comma_unread : (s : String) → label_here (String.◌∷◌ "," s) ≡ none
unfolding label_here is_letter
comma_unread s = refl

find_labels_step :
    (f : ℕ) (s : String) (l : Label)
    → label_here s ≡ some l
    → find_labels (suc f) s ≡ (l.key, l.value) ∷ find_labels f l.rest
unfolding find_labels
find_labels_step f s l e = rw (find_labels, e) refl

find_labels_comma : (f : ℕ) (s : String) → find_labels (suc f) (String.◌∷◌ "," s) ≡ find_labels f s
unfolding find_labels
find_labels_comma f s = rw (find_labels, comma_unread s) refl

find_labels_lem :
    (f : ℕ) (ls : List (String × String))
    → All IsLabel ls
    → 2 * length ls ≤ f
    → find_labels f (labels_text ls) ≡ map escaped ls
find_labels_lem f [] h e = find_labels_end f
find_labels_lem zero ((k, v) ∷ ls) h e = ground arith
find_labels_lem (suc f) ((k, v) ∷ []) h e =
    rw
      (
        find_labels_step f (label_text k v "") _ (label_here_lem k v "" h.0.0 h.0.1),
        find_labels_end f,
      )
      refl
find_labels_lem (suc zero) ((k, v) ∷ l ∷ ls) h e = ground arith
find_labels_lem (suc (suc f)) ((k, v) ∷ l ∷ ls) h e =
    let s = String.◌∷◌ "," (labels_text (l ∷ ls)) in
    rw
      (
        find_labels_step (suc f) (label_text k v s) _ (label_here_lem k v s h.0.0 h.0.1),
        find_labels_comma f (labels_text (l ∷ ls)),
        find_labels_lem f (l ∷ ls) h.1 (omega arith),
      )
      refl

chars-label_text : (k v s : String) → 3 + chars s ≤ chars (label_text k v s)
chars-label_text k v s = omega (
  arith,
  chars-append k (String.◌∷◌ "=" (String.◌∷◌ "\"" (quoted v <> String.◌∷◌ "\"" s))),
  chars-append (quoted v) (String.◌∷◌ "\"" s),
)

enough_fuel : (ls : List (String × String)) → 2 * length ls ≤ chars (labels_text ls)
enough_fuel [] = omega arith
enough_fuel ((k, v) ∷ []) = omega (arith, chars-label_text k v "")
enough_fuel ((k, v) ∷ l ∷ ls) =
    omega
      (arith, chars-label_text k v (String.◌∷◌ "," (labels_text (l ∷ ls))), enough_fuel (l ∷ ls))

-- The dict that the labels make.
abbrev pub as_dict : List (String × String) → Dict String → Dict String
as_dict [] d = d
as_dict ((k, v) ∷ ls) d = as_dict ls (put k v d)

dict_of-escaped :
    (ls : List (String × String)) (d : Dict String)
    → All IsLabel ls
    → dict_of (map escaped ls) d ≡ as_dict ls d
dict_of-escaped [] d h = refl
dict_of-escaped ((k, v) ∷ ls) d h =
    rw (dict_of, unquote-quoted v h.0.1) (dict_of-escaped ls (put k v d) h.1)

pub parse_labels-labels_text :
    (ls : List (String × String)) → All IsLabel ls → parse_labels (labels_text ls) ≡ as_dict ls []
unfolding parse_labels
parse_labels-labels_text ls h =
    rw (find_labels_lem (chars (labels_text ls)) ls h (enough_fuel ls)) (dict_of-escaped ls [] h)
