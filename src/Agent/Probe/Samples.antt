-- ===== src/Agent/Probe/Samples.antt =====
-- What `ExporterProbe.collect` of agent/gpu_health_agent/signals/exporter.py makes of the lines of a text in
-- the format of Prometheus.
use gpu_node_health.Base.{
  ℕ, ◌+◌, String, ◌<>◌, Bool, true, false, ◌=s=◌, ◌≡◌, refl, ap, ◌∙◌, Option, none, some, List, [],
  ◌∷◌, ◌++◌, if◌then◌else◌, arith, map, Bool-cases, inl, inr,
}
use mathlib.Core.List.{append-nil, append_assoc as ++_assoc}
use gpu_node_health.Base.Tests.{Option-cases}
use gpu_node_health.Base.Int.{ℤ}
use gpu_node_health.Base.Lists.{All, join}
use gpu_node_health.Base.Chars.{is_digit, is_break}
use gpu_node_health.Base.Lines.{splitlines-join, unbroken}
use gpu_node_health.Agent.Probe.Labels.{labels_text, IsLabel, as_dict, parse_labels-labels_text}
use gpu_node_health.Agent.Probe.{
  Float, finite, infinite, nan, is_letter, is_key_char, count_gpu, with_total, Gpu, gpu_of, Probe,
  at_least_one, read_line, read_lines, read_body,
}
use gpu_node_health.Agent.Probe.Matches.{is_name, IsValue, sample_line, read_line-sample_line}

-- A line that the exporter serves: a comment, the health of a GPU, the number of GPUs, or another sample.
pub data Entry : Type 0 where
  comment : String → Entry
  gpu : List (String × String) → String → Entry
  total : List (String × String) → String → Entry
  other : String → List (String × String) → String → Entry

abbrev pub line_of : Entry → String
line_of (comment s) = String.◌∷◌ "#" s
line_of (gpu ls v) = sample_line "gpu_health" (labels_text ls) v
line_of (total ls v) = sample_line "gpu_nodes_total" (labels_text ls) v
line_of (other n ls v) = sample_line n (labels_text ls) v

abbrev pub is_finite : Option Float → Bool
is_finite (some (infinite negative)) = false
is_finite x = true

-- The number that a text gives, where it is one, and else `t`.
abbrev pub given : Option Float → ℤ → ℤ
given (some (finite n b)) t = n
given x t = t

module _ (float : String → Option Float) where
  -- Lines in their form. The number of GPUs is not infinite.
  abbrev pub IsEntry : Entry → Type 0
  IsEntry (comment s) = unbroken s ≡ true
  IsEntry (gpu ls v) = All IsLabel ls × IsValue v × (unbroken (line_of (gpu ls v)) ≡ true)
  IsEntry (total ls v) =
      IsValue v × (is_finite (float v) ≡ true) × (unbroken (line_of (total ls v)) ≡ true)
  IsEntry (other n ls v) =
      (is_name n ≡ true)
      × IsValue v
      × ((n =s= "gpu_health") ≡ false)
      × ((n =s= "gpu_nodes_total") ≡ false)
      × (unbroken (line_of (other n ls v)) ≡ true)

  -- How many GPUs have a value of at least 1.
  abbrev pub healthy_count : List Entry → ℕ
  healthy_count [] = 0
  healthy_count ((comment s) ∷ es) = healthy_count es
  healthy_count ((gpu ls v) ∷ es) =
      let rest = healthy_count es in
      elim (float v) [ none ↦ rest | some x ↦ if at_least_one x then 1 + rest else rest ]
  healthy_count ((total ls v) ∷ es) = healthy_count es
  healthy_count ((other n ls v) ∷ es) = healthy_count es

  -- The GPUs that have another number.
  abbrev pub unhealthy_gpus : List Entry → List Gpu
  unhealthy_gpus [] = []
  unhealthy_gpus ((comment s) ∷ es) = unhealthy_gpus es
  unhealthy_gpus ((gpu ls v) ∷ es) =
      let rest = unhealthy_gpus es in
      elim (float v) [
        | none ↦ rest
        | some x ↦ if at_least_one x then rest else gpu_of (as_dict ls []) ∷ rest
      ]
  unhealthy_gpus ((total ls v) ∷ es) = unhealthy_gpus es
  unhealthy_gpus ((other n ls v) ∷ es) = unhealthy_gpus es

  -- The last number of GPUs that is given, where `t` was before.
  abbrev pub last_total : List Entry → ℤ → ℤ
  last_total [] t = t
  last_total ((comment s) ∷ es) t = last_total es t
  last_total ((gpu ls v) ∷ es) t = last_total es t
  last_total ((total ls v) ∷ es) t = last_total es (given (float v) t)
  last_total ((other n ls v) ∷ es) t = last_total es t

  abbrev pub after : List Entry → Probe → Probe
  after es p = record {
    healthy = p.healthy + healthy_count es;
    unhealthy = p.unhealthy ++ unhealthy_gpus es;
    gpu_total = last_total es p.gpu_total;
  }

  gpu_read :
      (ls : List (String × String)) (v : String) (es : List Entry) (p : Probe)
      → All IsLabel ls
      → after es (count_gpu (float v) (labels_text ls) p) ≡ after (gpu ls v ∷ es) p
  gpu_read ls v es p h = elim (Option-cases (float v)) [
    | inl e ↦ rw (after, healthy_count, unhealthy_gpus, e) refl
    | inr (x, e) ↦ elim (Bool-cases (at_least_one x)) [
      | inl b ↦
          let sum : p.healthy + 1 + healthy_count es ≡ p.healthy + (1 + healthy_count es) =
            omega arith in
          rw (after, healthy_count, unhealthy_gpus, e, b, sum) refl
      | inr b ↦
          rw (after, healthy_count, unhealthy_gpus, e, b, parse_labels-labels_text ls h, ++_assoc)
            refl
    ]
  ]

  total_read :
      (v : String) (p : Probe)
      → is_finite (float v) ≡ true
      → with_total (float v) p ≡ some (record p { gpu_total = given (float v) p.gpu_total })
  total_read v p h = elim (Option-cases (float v)) [
    | inl e ↦ rw e refl
    | inr (finite n b, e) ↦ rw e refl
    | inr (infinite b, e) ↦ cc
    | inr (nan, e) ↦ rw e refl
  ]

  read_comment : (s : String) (p : Probe) → read_line float (String.◌∷◌ "#" s) p ≡ some p
  unfolding read_line
  read_comment s p = refl

  read_lines_next :
      (l : String) (ls : List String) (p q : Probe)
      → read_line float l p ≡ some q
      → read_lines float (l ∷ ls) p ≡ read_lines float ls q
  unfolding read_lines
  read_lines_next l ls p q e = rw (read_lines, e) refl

  read_entries :
      (es : List Entry) (p : Probe)
      → All IsEntry es
      → read_lines float (map line_of es) p ≡ some (after es p)
  read_entries [] p h =
      let sum : p.healthy + 0 ≡ p.healthy = omega arith in
      unfold read_lines in rw (append-nil, sum) refl
  read_entries ((comment s) ∷ es) p h =
      rw (read_lines_next _ (map line_of es) p p (read_comment s p)) (read_entries es p h.1)
  read_entries ((gpu ls v) ∷ es) p h =
      let line =
        read_line-sample_line float "gpu_health" (labels_text ls) v p
          (unfold is_key_char is_letter is_digit in refl) h.0.1 in
      let q = count_gpu (float v) (labels_text ls) p in
      rw (read_lines_next _ (map line_of es) p q line, read_entries es q h.1)
        (ap some (gpu_read ls v es p h.0.0))
  read_entries ((total ls v) ∷ es) p h =
      let line =
        read_line-sample_line float "gpu_nodes_total" (labels_text ls) v p
          (unfold is_key_char is_letter is_digit in refl) h.0.0 in
      let q = record p { gpu_total = given (float v) p.gpu_total } in
      rw (read_lines_next _ (map line_of es) p q (line ∙ total_read v p h.0.1))
        (read_entries es q h.1)
  read_entries ((other n ls v) ∷ es) p h =
      let line = read_line-sample_line float n (labels_text ls) v p h.0.0 h.0.1 in
      let next : read_line float (sample_line n (labels_text ls) v) p ≡ some p =
        rw (line, h.0.2, h.0.3) refl in
      rw (read_lines_next _ (map line_of es) p p next) (read_entries es p h.1)

entry_unbroken :
    (float : String → Option Float) (e : Entry) → IsEntry float e → unbroken (line_of e) ≡ true
entry_unbroken float (comment s) h = unfold is_break in h
entry_unbroken float (gpu ls v) h = h.2
entry_unbroken float (total ls v) h = h.2
entry_unbroken float (other n ls v) h = h.4

entries_unbroken :
    (float : String → Option Float) (es : List Entry)
    → All (IsEntry float) es
    → All (λ l. unbroken l ≡ true) (map line_of es)
entries_unbroken float [] h = tt
entries_unbroken float (e ∷ es) h = (entry_unbroken float e h.0, entries_unbroken float es h.1)

-- What the probe makes of a text of comments and samples in their form, each ended by a line end: the GPUs
-- whose value is a number of at least 1 are counted as healthy; each GPU with another number is listed as
-- unhealthy, in order, with the labels that were written, quotes in them escaped; the number of GPUs is
-- the last one that `gpu_nodes_total` gives, and 0 where none is given; every other metric, and a value
-- that `float` does not read, changes nothing. The labels have names of their form and no backslash
-- in a value, a value is one word without a closing brace, no line holds another line end, and
-- the number of GPUs is not infinite.
pub read_body-join :
    (float : String → Option Float) (e : Entry) (es : List Entry)
    → All (IsEntry float) (e ∷ es)
    → read_body float (join "\n" (map line_of (e ∷ es)) <> "\n")
      ≡ some (record {
        healthy = healthy_count float (e ∷ es);
        unhealthy = unhealthy_gpus float (e ∷ es);
        gpu_total = last_total float (e ∷ es) (ℤ.pos 0);
      })
unfolding read_body
read_body-join float e es h =
    let start : Probe = record { healthy = 0; unhealthy = []; gpu_total = ℤ.pos 0 } in
    let sum : 0 + healthy_count float (e ∷ es) ≡ healthy_count float (e ∷ es) = omega arith in
    rw
      (
        splitlines-join (line_of e) (map line_of es) (entries_unbroken float (e ∷ es) h),
        read_entries float (e ∷ es) start h,
        sum,
      )
      refl
