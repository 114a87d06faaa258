-- ===== src/Base/Text.antt =====
-- Python's tests for parts of a text.
use Prim.Native.Char.{code}
use gpu_node_health.Base.{String, Bool, true, false, ◌&&◌, ◌||◌, ◌==◌, ◌≡◌, refl}

-- `s.startswith(p)`
abbrev pub starts_with : String → String → Bool
starts_with s String.[] = true
starts_with String.[] (String.◌∷◌ c p) = false
starts_with (String.◌∷◌ d s) (String.◌∷◌ c p) = (code d == code c) && starts_with s p

-- `p in s`
abbrev pub is_part : String → String → Bool
is_part p String.[] = starts_with "" p
is_part p (String.◌∷◌ c s) = starts_with (String.◌∷◌ c s) p || is_part p s

wchan_test : is_part "ttm_" "amdttm_bo_wait" ≡ true
wchan_test = refl

no_wchan_test : is_part "kfd_" "amdttm_bo_wait" ≡ false
no_wchan_test = refl
