-- ===== src/Base/Chars.antt =====
-- Tests on the characters of a text, and Python's white space and line boundaries.
use Prim.Native.Char.{Char, code}
use text.Mathlib.TextLemmas.{nil-append, cons-append}
use gpu_node_health.Base.{String, ◌<>◌, ℕ, Bool, true, ◌&&◌, ◌||◌, ◌==◌, ◌≡◌, refl, leb, arith}

-- `c` lies between two code points.
abbrev pub within : ℕ → ℕ → Char → Bool
within lo hi c = leb lo (code c) && leb (code c) hi

-- `c.isspace()`
unfoldable pub is_space : Char → Bool
is_space c =
    within 9 13 c
    || within 28 32 c
    || code c == 133
    || code c == 160
    || code c == 5760
    || within 8192 8202 c
    || within 8232 8233 c
    || code c == 8239
    || code c == 8287
    || code c == 12288

-- The characters at which `str.splitlines` ends a line.
unfoldable pub is_break : Char → Bool
is_break c = within 10 13 c || within 28 30 c || code c == 133 || within 8232 8233 c

unfoldable pub is_digit : Char → Bool
is_digit c = within b'0' b'9' c

-- `all(p(c) for c in text)`
abbrev pub all_chars : (Char → Bool) → String → Bool
all_chars p String.[] = true
all_chars p (String.◌∷◌ c s) = p c && all_chars p s

pub all_chars-append :
    (p : Char → Bool) (s t : String) → all_chars p (s <> t) ≡ (all_chars p s && all_chars p t)
all_chars-append p String.[] t = rw nil-append
all_chars-append p (String.◌∷◌ c s) t = rw cons-append (ground (arith, all_chars-append p s t))

pub all_chars_mono :
    (p q : Char → Bool)
    → ((c : Char) → p c ≡ true → q c ≡ true)
    → (s : String) → all_chars p s ≡ true
    → all_chars q s ≡ true
all_chars_mono p q h String.[] e = refl
all_chars_mono p q h (String.◌∷◌ c s) e = ground (arith, h c, all_chars_mono p q h s)
