-- ===== src/Recorder/Samples.antt =====
-- What `guard_view` of tools/stress-recorder.py makes of the lines that the guard writes.
use Prim.Native.Char.{Char, code}
use text.Mathlib.TextLemmas.{nil-append, cons-append, append_assoc}
use gpu_node_health.Base.{
  String, ◌<>◌, Bool, true, not, ◌==◌, ◌≡◌, refl, List, [], ◌∷◌, ◌++◌, Option, none, some,
  if◌then◌else◌, arith, ◌=s=◌, Bool-cases, inl, inr, contains,
}
use gpu_node_health.Base.Chars.{all_chars, all_chars_mono, is_space}
use gpu_node_health.Base.Text.{starts_with}
use gpu_node_health.Base.Strip.{not_space}
use gpu_node_health.Base.Tests.{Option-cases}
use gpu_node_health.Base.Lines.{last_space_lem}
use gpu_node_health.Base.Matching.{apart, starts_with-apart, starts_with-append}
use gpu_node_health.Guard.Metrics.{Registry, metric, sample, suffix, declaration}
use gpu_node_health.Base.Bind.{◌>>=◌}
use gpu_node_health.Recorder.{View, read_lines, read_line, read_key}

abbrev pub solid : String → Bool
solid s = all_chars not_space s

read_lines-append :
    (n : String) (xs ys : List String) (v : View)
    → read_lines n (xs ++ ys) v ≡ (read_lines n xs v >>= read_lines n ys)
unfolding read_lines
read_lines-append n [] ys v = refl
read_lines-append n (x ∷ xs) ys v = elim (Option-cases (read_line n x v)) [
  | inl e ↦ rw e refl
  | inr (w, e) ↦ rw e (read_lines-append n xs ys w)
]

-- A comment is passed over.
read_line_comment :
    (n a s : String) (v : View) → starts_with a "#" ≡ true → read_line n (a <> s) v ≡ some v
unfolding read_line
read_line_comment n a s v h = rw (starts_with-append a s "#" h) refl

no_spaces : (c : Char) → not_space c ≡ true → not (code c == code " ") ≡ true
unfolding is_space
no_spaces c h = ground arith

-- A sample is cut between its key and its value.
read_line-sample :
    (n full value : String) (labels : List (String × String)) (v : View)
    → apart full "#" ≡ true
    → solid value ≡ true
    → read_line n (sample full value labels) v ≡ read_key n (full <> suffix labels) value v
unfolding read_line sample
read_line-sample n full value labels v a h =
    let spaceless = all_chars_mono not_space (λ c. not (code c == code " ")) no_spaces value h in
    rw (starts_with-apart full (suffix labels <> (" " <> value)) "#" a) (
      let shape : sample full value labels ≡ (full <> suffix labels) <> String.◌∷◌ " " value =
        rw (append_assoc, cons-append, nil-append) refl in
      rw (shape, last_space_lem (full <> suffix labels) value spaceless) refl)

read_lines-declaration :
    (n full mtype help : String) (v : View) → read_lines n (declaration full mtype help) v ≡ some v
unfolding read_lines declaration
read_lines-declaration n full mtype help v =
    let typed = read_line_comment n "# TYPE " (full <> (" " <> (mtype <> ""))) v refl in
    let helped = read_line_comment n "# HELP " (full <> (" " <> (help <> ""))) v refl in
    elim (Bool-cases (help =s= "")) [
      | inl e ↦ rw (e, typed) refl
      | inr e ↦ rw (e, helped, typed) refl
    ]

>>=-some : {A : Type 0} (m : Option A) → (m >>= λ a. some a) ≡ m
>>=-some none = refl
>>=-some (some a) = refl

read_lines_then :
    (n s : String) (xs ys : List String) (v : View) (k : View → Option View)
    → ((w : View) → read_lines n ys w ≡ some w)
    → ((w : View) → read_line n s w ≡ k w)
    → read_lines n ((xs ++ ys) ++ s ∷ []) v ≡ (read_lines n xs v >>= k)
unfolding read_lines
read_lines_then n s xs ys v k passed last =
    rw (read_lines-append, read_lines-append)
      (elim (Option-cases (read_lines n xs v)) [
        | inl e ↦ rw e refl
        | inr (w, e) ↦ rw (e, passed w, read_lines, last w) (>>=-some (k w))
      ])

-- A call of `metric` adds one sample to what is read.
pub read_lines-metric :
    (n name value mtype help : String) (labels : List (String × String)) (r : Registry) (v : View)
    → solid value ≡ true
    → read_lines n (metric name value labels mtype help r).lines v
      ≡ (read_lines n r.lines v >>= read_key n (("gpuguard_" <> name) <> suffix labels) value)
unfolding metric read_lines
read_lines-metric n name value mtype help labels r v h =
    let full = "gpuguard_" <> name in
    let known = contains full r.declared in
    read_lines_then n (sample full value labels) r.lines
      (if known then [] else declaration full mtype help) v
      (read_key n (full <> suffix labels) value)
      (λ w. elim (Bool-cases known) [
        | inl e ↦ rw (e, read_lines) refl
        | inr e ↦ rw e (read_lines-declaration n full mtype help w)
      ])
      (λ w. read_line-sample n full value labels w (rw cons-append refl) h)
