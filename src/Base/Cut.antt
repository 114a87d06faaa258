-- ===== src/Base/Cut.antt =====
-- Python's `find`, `rfind` and slices of a text, and `str.split()`.
use Prim.Native.Char.{Char, code}
use text.Mathlib.TextLemmas.{nil-append, cons-append, append_assoc}
use gpu_node_health.Base.{
  ℕ, zero, suc, ◌-◌, String, ◌<>◌, Bool, true, false, ◌==◌, ◌≡◌, refl, Option, none, some, List, [],
  ◌∷◌, if◌then◌else◌, arith,
}
use gpu_node_health.Base.Lists.{All, join, chars, drop_chars, take_chars}
use gpu_node_health.Base.Chars.{is_space, all_chars}
use gpu_node_health.Base.Strip.{extend, not_space}
use gpu_node_health.Base.Matching.{without}

abbrev pub after_one : Option ℕ → Option ℕ
after_one none = none
after_one (some n) = some (suc n)

-- `s.find(c)` for one character.
unfoldable pub find_char : Char → String → Option ℕ
find_char c String.[] = none
find_char c (String.◌∷◌ d s) =
    let later = after_one (find_char c s) in if code d == code c then some 0 else later

abbrev pub last_of : Option ℕ → Bool → Option ℕ
last_of (some n) here = some (suc n)
last_of none here = if here then some 0 else none

-- `s.rfind(c)` for one character.
unfoldable pub rfind_char : Char → String → Option ℕ
rfind_char c String.[] = none
rfind_char c (String.◌∷◌ d s) = last_of (rfind_char c s) (code d == code c)

-- `s[a:b]`
unfoldable pub slice : ℕ → ℕ → String → String
unfolding take_chars
slice a b s = take_chars (b - a) (drop_chars a s)

-- A character before the words of what follows it.
abbrev pub glue : Char → String → List String → List String
glue c String.[] ws = String.◌∷◌ c String.[] ∷ ws
glue c (String.◌∷◌ d s) ws = if is_space d then String.◌∷◌ c String.[] ∷ ws else extend c ws

-- `s.split()`
unfoldable pub words : String → List String
unfolding is_space
words String.[] = []
words (String.◌∷◌ c s) = let ws = words s in if is_space c then ws else glue c s ws

-- `xs[i]`, where it is there.
abbrev pub get_elem? {ℓ} : {A : Type ℓ} → List A → ℕ → Option A
get_elem? [] i = none
get_elem? (x ∷ xs) zero = some x
get_elem? (x ∷ xs) (suc i) = get_elem? xs i

pub find_char_first :
    (c : Char) (a s : String)
    → without c a ≡ true
    → find_char c (a <> String.◌∷◌ c s) ≡ some (chars a)
unfolding find_char
find_char_first c String.[] s h = rw nil-append (ground arith)
find_char_first c (String.◌∷◌ d a) s h = rw cons-append (ground (arith, find_char_first c a s))

rfind_char_absent : (c : Char) (s : String) → without c s ≡ true → rfind_char c s ≡ none
unfolding rfind_char
rfind_char_absent c String.[] h = refl
rfind_char_absent c (String.◌∷◌ d s) h =
    let later = rfind_char_absent c s (ground arith) in
    rw (rfind_char, later, last_of) (ground arith)

pub rfind_char_last :
    (c : Char) (a s : String)
    → without c s ≡ true
    → rfind_char c (a <> String.◌∷◌ c s) ≡ some (chars a)
unfolding rfind_char
rfind_char_last c String.[] s h =
    rw (nil-append, rfind_char, rfind_char_absent c s h, last_of) (ground arith)
rfind_char_last c (String.◌∷◌ d a) s h = rw (cons-append, rfind_char, rfind_char_last c a s h) refl

pub take_chars-chars : (s t : String) → take_chars (chars s) (s <> t) ≡ s
unfolding take_chars
take_chars-chars String.[] t = refl
take_chars-chars (String.◌∷◌ c s) t = rw (cons-append, take_chars-chars s t) refl

-- A text without white space that is not empty.
abbrev pub is_word : String → Bool
is_word String.[] = false
is_word (String.◌∷◌ c s) = all_chars not_space (String.◌∷◌ c s)

words_word :
    (t : String) (sp : Char) (s : String)
    → is_word t ≡ true
    → is_space sp ≡ true
    → words (t <> String.◌∷◌ sp s) ≡ t ∷ words s
unfolding words
words_word String.[] sp s h k = cc
words_word (String.◌∷◌ c String.[]) sp s h k = rw (cons-append, nil-append) (ground arith)
words_word (String.◌∷◌ c (String.◌∷◌ d t)) sp s h k =
    let later = words_word (String.◌∷◌ d t) sp s (ground arith) k in
    let rest = rw cons-append at later in
    rw (cons-append, cons-append, words, rest, glue) (ground arith)

-- Words that are joined by spaces on one line are found again.
pub words-join :
    (t : String) (ts : List String)
    → All (λ x. is_word x ≡ true) (t ∷ ts)
    → words (join " " (t ∷ ts) <> "\n") ≡ t ∷ ts
words-join t [] h = unfold words in words_word t "\n" "" h.0 (unfold is_space in refl)
words-join t (u ∷ ts) h =
    rw
      (
        append_assoc,
        append_assoc,
        cons-append,
        nil-append,
        words_word t " " (join " " (u ∷ ts) <> "\n") h.0 (unfold is_space in refl),
        words-join u ts h.1,
      )
      refl
