-- ===== src/Recorder/Plain.antt =====
-- Label values that guard/gpu_node_guard/metrics.py writes as they are, its constants among them.
use Prim.Native.Char.{Char, code}
use gpu_node_health.Base.{String, Bool, true, not, ◌&&◌, ◌==◌, ◌≡◌, refl, Option, none, some, arith}
use gpu_node_health.Base.Chars.{all_chars, all_chars_mono, is_break}
use gpu_node_health.Base.Matching.{without, replace_char_absent}
use gpu_node_health.Guard.Metrics.{esc, action_text, reason_text, level_label}
use gpu_node_health.Guard.Policy.Types.{Level, l1, Action, cordon, noop, Reason, healthy}

-- A character that a label value may hold without being escaped or taken for another part.
unfoldable pub plain_char : Char → Bool
unfolding is_break
plain_char c =
    not (code c == code "\"")
    && not (code c == code "=")
    && not (code c == code "\\")
    && not (is_break c)

abbrev pub is_plain : String → Bool
is_plain s = all_chars plain_char s

pub plain_unquoted : (s : String) → is_plain s ≡ true → without "\"" s ≡ true
plain_unquoted s h =
    all_chars_mono plain_char (λ c. not (code c == code "\""))
      (λ c e. unfold plain_char in ground arith) s h

pub plain_unequal : (s : String) → is_plain s ≡ true → without "=" s ≡ true
plain_unequal s h =
    all_chars_mono plain_char (λ c. not (code c == code "="))
      (λ c e. unfold plain_char in ground arith) s h

pub action_plain : (a : Action) → is_plain (action_text a) ≡ true
unfolding action_text plain_char
action_plain cordon = refl
action_plain noop = refl

pub reason_plain : (r : Reason) → is_plain (reason_text r) ≡ true
unfolding reason_text plain_char
reason_plain healthy = refl
reason_plain _ = refl

pub level_plain : (l : Option Level) → is_plain (level_label l) ≡ true
unfolding level_label plain_char
level_plain none = refl
level_plain (some l1) = refl
level_plain (some _) = refl

pub esc_plain : (s : String) → is_plain s ≡ true → esc s ≡ s
unfolding esc
esc_plain s h =
    let unslashed =
      all_chars_mono plain_char (λ c. not (code c == code "\\"))
        (λ c e. unfold plain_char in ground arith) s h in
    let unbroken =
      all_chars_mono plain_char (λ c. not (code c == code "\n"))
        (λ c e. unfold plain_char is_break in ground arith) s h in
    rw
      (
        replace_char_absent "\\" "\\\\" s unslashed,
        replace_char_absent "\"" "\\\"" s (plain_unquoted s h),
        replace_char_absent "\n" "\\n" s unbroken,
      )
      refl
