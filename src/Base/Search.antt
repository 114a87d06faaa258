-- ===== src/Base/Search.antt =====
-- Where a search for a pattern passes over a known part of a text, and where it finds the pattern.
use Prim.Native.Char.{Char}
use text.Mathlib.TextLemmas.{nil-append, cons-append}
use gpu_node_health.Base.{
  String, ◌<>◌, Bool, true, false, ◌&&◌, ◌||◌, ◌≡◌, refl, sym, subst, ◌∙◌, some, arith,
  drop_chars-chars,
}
use gpu_node_health.Base.Text.{starts_with, is_part}
use gpu_node_health.Base.Lines.{after_first}
use gpu_node_health.Base.Matching.{
  apart, starts_with-apart, starts_with-append, starts_with_self, without, is_part_value,
  after_first_value,
}

-- The pattern, or one that goes on after it, starts nowhere in the text.
abbrev pub absent : String → String → Bool
absent p String.[] = true
absent p (String.◌∷◌ c a) = apart (String.◌∷◌ c a) p && absent p a

apart-append : (a p x : String) → apart a p ≡ true → apart a (p <> x) ≡ true
apart-append String.[] p x h = cc
apart-append (String.◌∷◌ c a) String.[] x h = cc
apart-append (String.◌∷◌ c a) (String.◌∷◌ d p) x h =
    rw cons-append (ground (arith, apart-append a p x))

starts_with_absent :
    (c : Char) (a s w x : String)
    → apart (String.◌∷◌ c a) w ≡ true
    → starts_with (String.◌∷◌ c (a <> s)) (w <> x) ≡ false
starts_with_absent c a s w x h =
    let miss =
      starts_with-apart (String.◌∷◌ c a) s (w <> x) (apart-append (String.◌∷◌ c a) w x h) in
    rw cons-append at miss

pub is_part-absent :
    (a s w x : String) → absent w a ≡ true → is_part (w <> x) (a <> s) ≡ is_part (w <> x) s
is_part-absent String.[] s w x h = rw nil-append refl
is_part-absent (String.◌∷◌ c a) s w x h =
    rw (cons-append, is_part, starts_with_absent c a s w x (ground arith))
      (is_part-absent a s w x (ground arith))

pub after_first-absent :
    (a s w x : String) → absent w a ≡ true → after_first (w <> x) (a <> s) ≡ after_first (w <> x) s
unfolding after_first
after_first-absent String.[] s w x h = rw nil-append refl
after_first-absent (String.◌∷◌ c a) s w x h =
    rw (cons-append, after_first, starts_with_absent c a s w x (ground arith))
      (after_first-absent a s w x (ground arith))

starts_with_both : (w s x : String) → starts_with (w <> s) (w <> x) ≡ starts_with s x
starts_with_both String.[] s x = rw (nil-append, nil-append) refl
starts_with_both (String.◌∷◌ c w) s x =
    rw (cons-append, cons-append) (ground (arith, starts_with_both w s x))

-- At the start of a pattern the search depends on what follows.
pub is_part_here :
    (c : Char) (w s x : String)
    → absent (String.◌∷◌ c w) w ≡ true
    → is_part (String.◌∷◌ c w <> x) (String.◌∷◌ c w <> s)
      ≡ (starts_with s x || is_part (String.◌∷◌ c w <> x) s)
is_part_here c w s x h =
    let here = starts_with_both (String.◌∷◌ c w) s x in
    let at_start = rw cons-append at here in
    let later = is_part-absent w s (String.◌∷◌ c w) x h in
    rw (cons-append, is_part, at_start, later) refl

pub after_first_here :
    (c : Char) (p s : String) → after_first (String.◌∷◌ c p) (String.◌∷◌ c p <> s) ≡ some s
unfolding after_first
after_first_here c p s =
    let here =
      starts_with-append (String.◌∷◌ c p) s (String.◌∷◌ c p) (starts_with_self (String.◌∷◌ c p)) in
    let at_start = rw cons-append at here in
    rw (cons-append, after_first, at_start, drop_chars-chars p s) refl

-- A value between its quotes, and what follows it.
abbrev pub quoted : String → String → String
quoted v rest = "\"" <> (v <> String.◌∷◌ "\"" rest)

pub quote_append : (s : String) → "\"" <> s ≡ String.◌∷◌ "\"" s
quote_append s = rw (cons-append, nil-append) refl

-- A search for a name and its equals sign passes over a quoted value without one.
module _ (v r w x name y : String) (shape : w <> x ≡ name <> String.◌∷◌ "=" y)
    (q : absent w "\"" ≡ true) (h : without "=" v ≡ true) (k : without "\"" name ≡ true) where
  pub is_part-quoted : is_part (w <> x) (quoted v r) ≡ is_part (w <> x) r
  is_part-quoted =
      let value : is_part (w <> x) (v <> String.◌∷◌ "\"" r) ≡ is_part (w <> x) (String.◌∷◌ "\"" r) =
        subst (λ p. is_part p (v <> String.◌∷◌ "\"" r) ≡ is_part p (String.◌∷◌ "\"" r)) (sym shape)
          (is_part_value v r name y h k) in
      let end : is_part (w <> x) (String.◌∷◌ "\"" r) ≡ is_part (w <> x) r =
        subst (λ t. is_part (w <> x) t ≡ is_part (w <> x) r) (quote_append r)
          (is_part-absent "\"" r w x q) in
      is_part-absent "\"" (v <> String.◌∷◌ "\"" r) w x q ∙ (value ∙ end)

  pub after_first-quoted : after_first (w <> x) (quoted v r) ≡ after_first (w <> x) r
  after_first-quoted =
      let value : after_first (w <> x) (v <> String.◌∷◌ "\"" r)
          ≡ after_first (w <> x) (String.◌∷◌ "\"" r) =
        subst (λ p. after_first p (v <> String.◌∷◌ "\"" r) ≡ after_first p (String.◌∷◌ "\"" r))
          (sym shape) (after_first_value v r name y h k) in
      let end : after_first (w <> x) (String.◌∷◌ "\"" r) ≡ after_first (w <> x) r =
        subst (λ t. after_first (w <> x) t ≡ after_first (w <> x) r) (quote_append r)
          (after_first-absent "\"" r w x q) in
      after_first-absent "\"" (v <> String.◌∷◌ "\"" r) w x q ∙ (value ∙ end)
