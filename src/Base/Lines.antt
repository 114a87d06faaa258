-- ===== src/Base/Lines.antt =====
-- Python's `str.splitlines`, `str.rpartition(" ")` and `str.split(sep, 1)`.
use Prim.Native.Char.{Char, code}
use text.Mathlib.TextLemmas.{nil-append, cons-append, append_assoc}
use gpu_node_health.Base.{
  String, ◌<>◌, Bool, true, not, ◌&&◌, ◌==◌, ◌≡◌, refl, List, [], ◌∷◌, Option, none, some,
  if◌then◌else◌, arith, All, join, chars, drop_chars,
}
use gpu_node_health.Base.Chars.{is_break, all_chars}
use gpu_node_health.Base.Strip.{extend}
use gpu_node_health.Base.Text.{starts_with}

-- What follows a line boundary `c`: a carriage return before a line feed is no boundary of its own.
abbrev pub next_line : Char → String → List String → List String
next_line c s rest = if (code c == code "\r") && starts_with s "\n" then rest else "" ∷ rest

-- `text.splitlines()`
unfoldable pub splitlines : String → List String
unfolding is_break
splitlines String.[] = []
splitlines (String.◌∷◌ c s) =
    let rest = splitlines s in if is_break c then next_line c s rest else extend c rest

abbrev pub grow : Char → Option (String × String) → String → Option (String × String)
grow c (some (a, b)) s = some (String.◌∷◌ c a, b)
grow c none s = if code c == code " " then some ("", s) else none

-- What stands before and behind the last space.
unfoldable pub last_space : String → Option (String × String)
last_space String.[] = none
last_space (String.◌∷◌ c s) = grow c (last_space s) s

-- What follows the first `p` in a text, `s.split(p, 1)[1]`; `none` where `p` is not in it.
unfoldable pub after_first : String → String → Option String
after_first p String.[] = if starts_with "" p then some "" else none
after_first p (String.◌∷◌ c s) =
    let later = after_first p s in
    if starts_with (String.◌∷◌ c s) p then some (drop_chars (chars p) (String.◌∷◌ c s)) else later

-- A text that stays on one line.
abbrev pub unbroken : String → Bool
unbroken s = all_chars (λ c. not (is_break c)) s

splitlines_line :
    (l s : String) → unbroken l ≡ true → splitlines (l <> String.◌∷◌ "\n" s) ≡ l ∷ splitlines s
unfolding splitlines
splitlines_line String.[] s h = rw nil-append refl
splitlines_line (String.◌∷◌ c l) s h = rw cons-append (ground (arith, splitlines_line l s))

-- Lines that are joined and ended are found again.
pub splitlines-join :
    (l : String) (ls : List String)
    → All (λ x. unbroken x ≡ true) (l ∷ ls)
    → splitlines (join "\n" (l ∷ ls) <> "\n") ≡ l ∷ ls
splitlines-join l [] h = unfold splitlines in splitlines_line l "" h.0
splitlines-join l (m ∷ ls) h =
    rw
      (
        append_assoc,
        append_assoc,
        cons-append,
        nil-append,
        splitlines_line l (join "\n" (m ∷ ls) <> "\n") h.0,
        splitlines-join m ls h.1,
      )
      refl

no_space : (v : String) → all_chars (λ c. not (code c == code " ")) v ≡ true → last_space v ≡ none
unfolding last_space
no_space String.[] h = refl
no_space (String.◌∷◌ c v) h =
    let later = no_space v (ground arith) in rw (last_space, later, grow) (ground arith)

-- The last space of a text stands before a last part without spaces.
pub last_space_lem :
    (k v : String)
    → all_chars (λ c. not (code c == code " ")) v ≡ true
    → last_space (k <> String.◌∷◌ " " v) ≡ some (k, v)
unfolding last_space
last_space_lem String.[] v h = rw (nil-append, no_space v h) refl
last_space_lem (String.◌∷◌ c k) v h = rw (cons-append, last_space_lem k v h) refl
