-- ===== src/Base/Matching.antt =====
-- When a text that goes on with any rest starts with a pattern, equals it or holds it.
use Prim.Native.Char.{Char, code}
use text.Mathlib.TextLemmas.{nil-append, cons-append}
use Prim.Native.String.compare.{cons-cons, nil-cons, cons-nil}
use Prim.Native.String.{compare, then as and_next}
use Prim.Native.Nat.{Ordering, compare as compare_ℕ}
use gpu_node_health.Base.{
  String, ◌<>◌, Bool, true, false, not, ◌&&◌, ◌==◌, ◌≡◌, refl, if◌then◌else◌, arith, ◌=s=◌, eq_iff,
  Bool-cases, inl, inr, ◌∷◌,
}
use gpu_node_health.Base.Chars.{all_chars}
use gpu_node_health.Base.Strip.{split_at, replace_char}
use gpu_node_health.Base.Lines.{after_first}
use gpu_node_health.Base.Text.{starts_with, is_part}

-- Two texts differ at a place that both have.
abbrev pub apart : String → String → Bool
apart String.[] p = false
apart (String.◌∷◌ c a) String.[] = false
apart (String.◌∷◌ c a) (String.◌∷◌ d p) = if code c == code d then apart a p else true

pub starts_with-apart : (a s p : String) → apart a p ≡ true → starts_with (a <> s) p ≡ false
starts_with-apart String.[] s p h = cc
starts_with-apart (String.◌∷◌ c a) s String.[] h = cc
starts_with-apart (String.◌∷◌ c a) s (String.◌∷◌ d p) h =
    rw cons-append (ground (arith, starts_with-apart a s p))

pub starts_with_self : (p : String) → starts_with p p ≡ true
starts_with_self String.[] = refl
starts_with_self (String.◌∷◌ c p) = ground (arith, starts_with_self p)

pub eq-apart : (a s p : String) → apart a p ≡ true → ((a <> s) =s= p) ≡ false
eq-apart a s p h = elim (Bool-cases ((a <> s) =s= p)) [
  | inl e ↦ cc ((eq_iff (a <> s) p).0 e, starts_with-apart a s p h, starts_with_self p)
  | inr e ↦ e
]

-- No character of the text is `c`.
abbrev pub without : Char → String → Bool
without c s = all_chars (λ d. not (code d == code c)) s

-- A name that ends in an equals sign does not start in a quoted value without one.
pub starts_with_value :
    (v r w x : String)
    → without "=" v ≡ true
    → without "\"" w ≡ true
    → starts_with (v <> String.◌∷◌ "\"" r) (w <> String.◌∷◌ "=" x) ≡ false
starts_with_value String.[] r String.[] x h k = rw (nil-append, nil-append) refl
starts_with_value String.[] r (String.◌∷◌ d w) x h k = rw (nil-append, cons-append) (ground arith)
starts_with_value (String.◌∷◌ c v) r String.[] x h k = rw (nil-append, cons-append) (ground arith)
starts_with_value (String.◌∷◌ c v) r (String.◌∷◌ d w) x h k =
    rw (cons-append, cons-append) (ground (arith, starts_with_value v r w x))

pub cons_eq :
    (c d : Char) (a b : String)
    → ((String.◌∷◌ c a) =s= (String.◌∷◌ d b)) ≡ ((code c == code d) && (a =s= b))
cons_eq c d a b =
    let step : compare (String.◌∷◌ c a) (String.◌∷◌ d b)
        ≡ and_next (compare_ℕ (code c) (code d)) (compare a b) =
      λ i. cons-cons c d a b i in
    rw step (ground arith)

nil-ne-cons : (d : Char) (b : String) → ("" =s= (String.◌∷◌ d b)) ≡ false
nil-ne-cons d b =
    let step : compare "" (String.◌∷◌ d b) ≡ Ordering.lt = λ i. nil-cons d b i in rw step refl

pub cons-ne-nil : (d : Char) (b : String) → ((String.◌∷◌ d b) =s= "") ≡ false
cons-ne-nil d b =
    let step : compare (String.◌∷◌ d b) "" ≡ Ordering.gt = λ i. cons-nil d b i in rw step refl

-- Where both end in a quote and hold none, the start is the whole.
pub starts_with_quoted :
    (a b s : String)
    → without "\"" a ≡ true
    → without "\"" b ≡ true
    → starts_with (a <> String.◌∷◌ "\"" s) (b <> "\"") ≡ (a =s= b)
starts_with_quoted String.[] String.[] s h k = rw nil-append refl
starts_with_quoted String.[] (String.◌∷◌ d b) s h k =
    rw (nil-append, cons-append, nil-ne-cons) (ground arith)
starts_with_quoted (String.◌∷◌ c a) String.[] s h k = rw (cons-append, cons-ne-nil) (ground arith)
starts_with_quoted (String.◌∷◌ c a) (String.◌∷◌ d b) s h k =
    rw (cons-append, cons-append, cons_eq) (ground (arith, starts_with_quoted a b s))

pub starts_with-append : (a s p : String) → starts_with a p ≡ true → starts_with (a <> s) p ≡ true
starts_with-append a s String.[] h = refl
starts_with-append String.[] s (String.◌∷◌ d p) h = cc
starts_with-append (String.◌∷◌ c a) s (String.◌∷◌ d p) h =
    rw cons-append (ground (arith, starts_with-append a s p))

-- The search for a name and its equals sign passes over a quoted value.
pub is_part_value :
    (v r w x : String)
    → without "=" v ≡ true
    → without "\"" w ≡ true
    → is_part (w <> String.◌∷◌ "=" x) (v <> String.◌∷◌ "\"" r)
      ≡ is_part (w <> String.◌∷◌ "=" x) (String.◌∷◌ "\"" r)
is_part_value String.[] r w x h k = rw nil-append refl
is_part_value (String.◌∷◌ c v) r w x h k =
    let miss = starts_with_value (String.◌∷◌ c v) r w x h k in
    let here = rw cons-append at miss in
    rw (cons-append, is_part, here) (is_part_value v r w x (ground arith) k)

pub after_first_value :
    (v r w x : String)
    → without "=" v ≡ true
    → without "\"" w ≡ true
    → after_first (w <> String.◌∷◌ "=" x) (v <> String.◌∷◌ "\"" r)
      ≡ after_first (w <> String.◌∷◌ "=" x) (String.◌∷◌ "\"" r)
unfolding after_first
after_first_value String.[] r w x h k = rw nil-append refl
after_first_value (String.◌∷◌ c v) r w x h k =
    let miss = starts_with_value (String.◌∷◌ c v) r w x h k in
    let here = rw cons-append at miss in
    rw (cons-append, after_first, here) (after_first_value v r w x (ground arith) k)

-- A text is cut at the first separator.
pub split_at_first :
    (sep : Char) (v s : String)
    → without sep v ≡ true
    → split_at sep (v <> String.◌∷◌ sep s) ≡ v ∷ split_at sep s
unfolding split_at
split_at_first sep String.[] s h = rw nil-append (ground arith)
split_at_first sep (String.◌∷◌ c v) s h = rw cons-append (ground (arith, split_at_first sep v s))

pub replace_char_absent : (c : Char) (by s : String) → without c s ≡ true → replace_char c by s ≡ s
unfolding replace_char
replace_char_absent c by String.[] h = refl
replace_char_absent c by (String.◌∷◌ d s) h =
    let other : code d == code c ≡ false = ground arith in
    rw (other, cons-append, nil-append, replace_char_absent c by s (ground arith)) refl
