-- ===== src/Base/CommaList.antt =====
-- That a list of names in a setting is read back, for the settings of agent/gpu_health_agent/config.py and
-- guard/gpu_node_guard/config.py.
use Prim.Native.Char.{Char}
use text.Mathlib.TextLemmas.{cons-append, nil-append}
use gpu_node_health.Base.{String, true, ◌≡◌, refl, some, List, [], ◌∷◌, map, join, All, arith}
use gpu_node_health.Base.Strip.{strip, strip_solid, split_at, non_empty, comma_list}
use gpu_node_health.Base.Matching.{without, split_at_first}
use gpu_node_health.Base.Cut.{is_word}
use gpu_node_health.Base.Env.{Env, list_setting}

-- A name that a comma ends, and that is not stripped.
abbrev pub IsItem : String → Type 0
IsItem s = (is_word s ≡ true) × (without "," s ≡ true)

split_at_whole : (c : Char) (v : String) → without c v ≡ true → split_at c v ≡ v ∷ []
unfolding split_at
split_at_whole c String.[] h = refl
split_at_whole c (String.◌∷◌ d v) h = ground (arith, split_at_whole c v)

split_at-join :
    (x : String) (xs : List String)
    → All IsItem (x ∷ xs)
    → split_at "," (join "," (x ∷ xs)) ≡ x ∷ xs
split_at-join x [] h = split_at_whole "," x h.0.1
split_at-join x (y ∷ xs) h =
    rw
      (
        cons-append,
        nil-append,
        split_at_first "," x (join "," (y ∷ xs)) h.0.1,
        split_at-join y xs h.1,
      )
      refl

strip_word : (s : String) → is_word s ≡ true → strip s ≡ s
strip_word String.[] h = cc
strip_word (String.◌∷◌ c s) h = strip_solid (String.◌∷◌ c s) h

kept : (s : String) (ss : List String) → is_word s ≡ true → non_empty (s ∷ ss) ≡ s ∷ non_empty ss
kept String.[] ss h = cc
kept (String.◌∷◌ c s) ss h = refl

items : (xs : List String) → All IsItem xs → non_empty (map strip xs) ≡ xs
items [] h = refl
items (x ∷ xs) h = rw (strip_word x h.0.0, kept x (map strip xs) h.0.0, items xs h.1) refl

comma_list-join : (xs : List String) → All IsItem xs → comma_list (join "," xs) ≡ xs
unfolding comma_list
comma_list-join [] h = refl
comma_list-join (x ∷ xs) h = rw (split_at-join x xs h) (items (x ∷ xs) h)

-- A list setting that is set to names joined by commas, each without white space and commas and not
-- empty, has these names in this order, whatever its default.
pub list_setting-join :
    (env : Env) (name default : String) (xs : List String)
    → env name ≡ some (join "," xs)
    → All IsItem xs
    → list_setting env name default ≡ xs
unfolding list_setting
list_setting-join env name default xs e h = rw e (comma_list-join xs h)
