-- ===== src/Base/Strip.antt =====
-- Python's `str.strip`, `str.lower` and `str.split`.
use Prim.Native.Char.{Char, code}
use gpu_node_health.Base.{
  String, ◌<>◌, Bool, true, not, ◌==◌, ◌≡◌, refl, List, [], ◌∷◌, map, if◌then◌else◌, arith,
}
use gpu_node_health.Base.Chars.{is_space, all_chars}

-- `s.lstrip()`
unfoldable pub lstrip : String → String
lstrip String.[] = ""
lstrip (String.◌∷◌ c s) = if is_space c then lstrip s else String.◌∷◌ c s

-- Puts `c` before a text stripped on the right.
abbrev pub keep : Char → String → String
keep c String.[] = if is_space c then "" else String.◌∷◌ c String.[]
keep c (String.◌∷◌ d s) = String.◌∷◌ c (String.◌∷◌ d s)

-- `s.rstrip()`
unfoldable pub rstrip : String → String
rstrip String.[] = ""
rstrip (String.◌∷◌ c s) = keep c (rstrip s)

-- `s.strip()`
unfoldable pub strip : String → String
unfolding lstrip rstrip is_space
strip s = rstrip (lstrip s)

-- `c.lower()` for the letters of ASCII: the letter of `to` at the place of `c` in `from`.
abbrev pub translate : String → String → Char → Char
translate String.[] to c = c
translate (String.◌∷◌ u from) String.[] c = c
translate (String.◌∷◌ u from) (String.◌∷◌ l to) c =
    if code u == code c then l else translate from to c

-- `s.lower()`
unfoldable pub lower : String → String
lower String.[] = ""
lower (String.◌∷◌ c s) =
    String.◌∷◌ (translate "ABCDEFGHIJKLMNOPQRSTUVWXYZ" "abcdefghijklmnopqrstuvwxyz" c) (lower s)

-- The first part of a split is read further.
abbrev pub extend : Char → List String → List String
extend c [] = (String.◌∷◌ c String.[]) ∷ []
extend c (s ∷ ss) = (String.◌∷◌ c s) ∷ ss

-- `s.split(sep)` for a separator of one character.
unfoldable pub split_at : Char → String → List String
split_at sep String.[] = "" ∷ []
split_at sep (String.◌∷◌ c s) =
    let rest = split_at sep s in if code c == code sep then "" ∷ rest else extend c rest

-- `text.replace(c, by)` for a text `c` of one character.
unfoldable pub replace_char : Char → String → String → String
replace_char c by String.[] = ""
replace_char c by (String.◌∷◌ d s) =
    (if code d == code c then by else String.◌∷◌ d String.[]) <> replace_char c by s

-- Leaves out the empty texts.
abbrev pub non_empty : List String → List String
non_empty [] = []
non_empty (String.[] ∷ ss) = non_empty ss
non_empty ((String.◌∷◌ c s) ∷ ss) = (String.◌∷◌ c s) ∷ non_empty ss

-- `[p.strip() for p in s.split(",") if p.strip()]`
unfoldable pub comma_list : String → List String
unfolding split_at strip
comma_list s = non_empty (map strip (split_at "," s))

abbrev pub not_space : Char → Bool
not_space c = not (is_space c)

lstrip_solid : (s : String) → all_chars not_space s ≡ true → lstrip s ≡ s
unfolding lstrip
lstrip_solid String.[] h = refl
lstrip_solid (String.◌∷◌ c s) h = ground arith

rstrip_solid : (s : String) → all_chars not_space s ≡ true → rstrip s ≡ s
unfolding rstrip
rstrip_solid String.[] h = refl
rstrip_solid (String.◌∷◌ c String.[]) h = ground arith
rstrip_solid (String.◌∷◌ c (String.◌∷◌ d s)) h =
    let later = rstrip_solid (String.◌∷◌ d s) (ground arith) in rw (rstrip, later, keep)

-- A text without white space is not stripped.
pub strip_solid : (s : String) → all_chars not_space s ≡ true → strip s ≡ s
unfolding strip
strip_solid s h = rw (lstrip_solid s h) (rstrip_solid s h)

strip_test : strip " on\t" ≡ "on"
unfolding strip
strip_test = refl

lower_test : lower "EnForce" ≡ "enforce"
unfolding lower
lower_test = refl

comma_test : comma_list " n1 ,,n2, " ≡ "n1" ∷ "n2" ∷ []
unfolding comma_list
comma_test = refl
