-- ===== src/Guard/Metrics/Unbroken.antt =====
-- That each line of guard/gpu_node_guard/metrics.py stays on one line.
use gpu_node_health.Base.{
  String, ◌<>◌, true, not, ◌≡◌, refl, List, [], ◌∷◌, ◌++◌, arith, ◌=s=◌, Bool-cases, inl, inr, map,
  join, concat, contains,
}
use gpu_node_health.Base.Lists.{All, All-append}
use gpu_node_health.Base.Chars.{is_space, is_break, all_chars, all_chars-append, all_chars_mono}
use gpu_node_health.Base.Lines.{unbroken}
use gpu_node_health.Base.Strip.{not_space}
use gpu_node_health.Guard.Metrics.{Registry, metric, sample, suffix, declaration, label, each}

abbrev pub IsUnbroken : String → Type 0
IsUnbroken s = unbroken s ≡ true

pub append-IsUnbroken : (a b : String) → IsUnbroken a → IsUnbroken b → IsUnbroken (a <> b)
append-IsUnbroken a b h k = rw (all_chars-append, h, k) refl

pub solid-IsUnbroken : (s : String) → all_chars not_space s ≡ true → IsUnbroken s
solid-IsUnbroken s h =
    all_chars_mono not_space (λ c. not (is_break c))
      (λ c e. unfold is_space is_break in ground arith) s h

join-IsUnbroken :
    (sep : String) (xs : List String)
    → IsUnbroken sep
    → All IsUnbroken xs
    → IsUnbroken (join sep xs)
join-IsUnbroken sep [] h k = refl
join-IsUnbroken sep (x ∷ []) h k = k.0
join-IsUnbroken sep (x ∷ y ∷ xs) h k =
    append-IsUnbroken x (sep <> join sep (y ∷ xs)) k.0
      (append-IsUnbroken sep (join sep (y ∷ xs)) h (join-IsUnbroken sep (y ∷ xs) h k.1))

pub concat-IsUnbroken : (xs : List String) → All IsUnbroken xs → IsUnbroken (concat xs)
concat-IsUnbroken [] k = refl
concat-IsUnbroken (x ∷ xs) k = append-IsUnbroken x (concat xs) k.0 (concat-IsUnbroken xs k.1)

abbrev pub Labels : Type 0
Labels = List (String × String)

labels-IsUnbroken :
    (ls : Labels) → All (λ l. IsUnbroken (label l)) ls → All IsUnbroken (map label ls)
labels-IsUnbroken [] h = tt
labels-IsUnbroken (l ∷ ls) h = (h.0, labels-IsUnbroken ls h.1)

suffix-IsUnbroken : (ls : Labels) → All (λ l. IsUnbroken (label l)) ls → IsUnbroken (suffix ls)
unfolding suffix is_break
suffix-IsUnbroken [] h = refl
suffix-IsUnbroken (l ∷ ls) h = concat-IsUnbroken ("{" ∷ join "," (map label (l ∷ ls)) ∷ "}" ∷ []) (
  refl,
  (join-IsUnbroken "," (map label (l ∷ ls)) refl (labels-IsUnbroken (l ∷ ls) h), (refl, tt)),
)

-- The texts of a call of `metric` hold no line boundary.
abbrev pub IsPlainCall : String → String → String → String → Labels → Type 0
IsPlainCall name value mtype help ls =
    IsUnbroken name
    × IsUnbroken value
    × IsUnbroken mtype
    × IsUnbroken help
    × All (λ l. IsUnbroken (label l)) ls

declaration-IsUnbroken :
    (full mtype help : String)
    → IsUnbroken full
    → IsUnbroken mtype
    → IsUnbroken help
    → All IsUnbroken (declaration full mtype help)
unfolding declaration is_break
declaration-IsUnbroken full mtype help pf pt ph =
    let typed =
      concat-IsUnbroken ("# TYPE " ∷ full ∷ " " ∷ mtype ∷ []) (refl, (pf, (refl, (pt, tt)))) in
    let helped =
      concat-IsUnbroken ("# HELP " ∷ full ∷ " " ∷ help ∷ []) (refl, (pf, (refl, (ph, tt)))) in
    elim (Bool-cases (help =s= "")) [
      | inl e ↦ rw e (typed, tt)
      | inr e ↦ rw e (helped, (typed, tt))
    ]

pub metric-IsUnbroken :
    (name value mtype help : String) (ls : Labels) (r : Registry)
    → IsPlainCall name value mtype help ls
    → All IsUnbroken r.lines
    → All IsUnbroken (metric name value ls mtype help r).lines
unfolding metric sample is_break
metric-IsUnbroken name value mtype help ls r (pn, pv, pt, ph, pl) h =
    let full = "gpuguard_" <> name in
    let pf : IsUnbroken full = append-IsUnbroken "gpuguard_" name refl pn in
    let known = contains full r.declared in
    let line : IsUnbroken (sample full value ls) =
      append-IsUnbroken full (suffix ls <> (" " <> value)) pf (
        append-IsUnbroken (suffix ls) (" " <> value) (suffix-IsUnbroken ls pl)
          (append-IsUnbroken " " value refl pv)) in
    let declared = declaration-IsUnbroken full mtype help pf pt ph in
    elim (Bool-cases known) [
      | inl e ↦ rw e (
          All-append IsUnbroken (r.lines ++ []) (sample full value ls ∷ [])
            (All-append IsUnbroken r.lines [] h tt) (line, tt))
      | inr e ↦ rw e (
          All-append IsUnbroken (r.lines ++ declaration full mtype help) (sample full value ls ∷ [])
            (All-append IsUnbroken r.lines (declaration full mtype help) h declared) (line, tt))
    ]

pub each-IsUnbroken :
    {A : Type 0} (f : A → Registry → Registry) (P : A → Type 0)
    → ((x : A) (r : Registry) → P x → All IsUnbroken r.lines → All IsUnbroken (f x r).lines)
    → (xs : List A) (r : Registry) → All P xs
    → All IsUnbroken r.lines
    → All IsUnbroken (each f xs r).lines
each-IsUnbroken f P h [] r l k = k
each-IsUnbroken f P h (x ∷ xs) r l k = each-IsUnbroken f P h xs (f x r) l.1 (h x r l.0 k)
