-- ===== src/Agent/Metrics/Declared.antt =====
-- That the text of agent/gpu_health_agent/metrics.py declares each series once, before its samples.
use text.Mathlib.TextLemmas.{nil-append, cons-append, append_assoc}
use mathlib.Core.List.{append-nil, append_assoc as ++_assoc}
use gpu_node_health.Base.{
  String, ◌<>◌, Option, none, some, Bool, true, false, not, ◌&&◌, ◌==◌, ◌≡◌, refl, ◌∙◌, List, [],
  ◌∷◌, ◌++◌, map, if◌then◌else◌, arith, drop_chars, drop_chars-chars, contains, All, All-append,
  Bool-cases, inl, inr, concat, ◌=s=◌, eq_refl,
}
use Prim.Native.Char.{Char, code}
use gpu_node_health.Base.Chars.{all_chars-append}
use gpu_node_health.Base.Text.{starts_with}
use gpu_node_health.Base.Matching.{without, starts_with-append, starts_with-apart}
use gpu_node_health.Base.Sorted.{sorted, sorted-All}
use gpu_node_health.Base.Int.{ℤ}
use gpu_node_health.Base.Dict.{Dict}
use gpu_node_health.Agent.Metrics.{Buf, metric, declaration}
use gpu_node_health.Agent.Metrics.Render.{
  State, Call, write, calls, collect, agent_calls, kernlog_calls, dstate_calls, exporter_calls,
  patch_calls, condition_calls, event_call, last_hit_call, file_call, gpu_call, patch_call,
  condition_call, Reach,
}
use gpu_node_health.Agent.Signals.{Kernlog}
use gpu_node_health.Agent.Census.{Census}
use gpu_node_health.Agent.PatchCounters.{PatchCounters}

-- The part of a text before the first `c`.
unfoldable pub before : Char → String → String
before c String.[] = ""
before c (String.◌∷◌ d s) =
    let more = String.◌∷◌ d (before c s) in if code d == code c then "" else more

before_first : (c : Char) (a s : String) → without c a ≡ true → before c (a <> String.◌∷◌ c s) ≡ a
unfolding before
before_first c String.[] s h = rw nil-append (ground arith)
before_first c (String.◌∷◌ d a) s h =
    let other : code d == code c ≡ false = ground arith in
    rw (cons-append, before, other, before_first c a s (ground arith)) refl

-- A reader of the lines: it takes the names that are declared so far, and refuses a second declaration
-- of a series and a sample whose series is not declared before it. It does not ask that the lines of a
-- series stand together.
unfoldable pub accepts : List String → List String → Bool
accepts [] seen = true
accepts (l ∷ ls) seen =
    let declared = before " " (drop_chars 7 l) in
    let with_new = accepts ls (declared ∷ seen) in
    let rest = accepts ls seen in
    if starts_with l "# TYPE "
    then not (contains declared seen) && with_new
    else if starts_with l "#"
    then rest
    else contains (before "{" l) seen && rest

accept_type :
    (full mtype : String) (ls seen : List String)
    → without " " full ≡ true
    → accepts (concat ("# TYPE " ∷ full ∷ " " ∷ mtype ∷ []) ∷ ls) seen
      ≡ (not (contains full seen) && accepts ls (full ∷ seen))
unfolding accepts
accept_type full mtype ls seen h =
    let rest = full <> (" " <> (mtype <> "")) in
    let typed = starts_with-append "# TYPE " rest "# TYPE " refl in
    let name : before " " (drop_chars 7 ("# TYPE " <> rest)) ≡ full =
      rw (drop_chars-chars "# TYPE " rest, cons-append, nil-append)
        (before_first " " full (mtype <> "") h) in
    rw (typed, name) refl

accept_help :
    (full help : String) (ls seen : List String)
    → accepts (concat ("# HELP " ∷ full ∷ " " ∷ help ∷ []) ∷ ls) seen ≡ accepts ls seen
unfolding accepts
accept_help full help ls seen =
    let rest = full <> (" " <> (help <> "")) in
    rw (starts_with-apart "# HELP " rest "# TYPE " refl, starts_with-append "# HELP " rest "#" refl)
      refl

-- A name that a series may have behind the prefix.
abbrev pub is_series : String → Bool
is_series name = without " " name && without "{" name

full_name : (name : String) → is_series name ≡ true → is_series ("gpuhealth_" <> name) ≡ true
full_name name h = rw (all_chars-append, all_chars-append) (ground arith)

accept_sample :
    (name rendered value : String) (ls seen : List String)
    → is_series name ≡ true
    → accepts (concat (("gpuhealth_" <> name) ∷ "{" ∷ rendered ∷ "} " ∷ value ∷ []) ∷ ls) seen
      ≡ (contains ("gpuhealth_" <> name) seen && accepts ls seen)
unfolding accepts
accept_sample name rendered value ls seen h =
    let rest = rendered <> ("} " <> (value <> "")) in
    let full = "gpuhealth_" <> name in
    let unbraced : without "{" full ≡ true = ground (arith, full_name name h) in
    let brace : "{" <> rest ≡ String.◌∷◌ "{" rest = rw (cons-append, nil-append) refl in
    let key : before "{" (full <> ("{" <> rest)) ≡ full =
      rw brace (before_first "{" full rest unbraced) in
    let untyped : starts_with (full <> ("{" <> rest)) "# TYPE " ≡ false =
      rw append_assoc (starts_with-apart "gpuhealth_" (name <> ("{" <> rest)) "# TYPE " refl) in
    let sampled : starts_with (full <> ("{" <> rest)) "#" ≡ false =
      rw append_assoc (starts_with-apart "gpuhealth_" (name <> ("{" <> rest)) "#" refl) in
    rw (untyped, sampled, key) refl

-- What is written so far is accepted, and declares the names that the buffer records.
abbrev IsOrdered : Buf → Type 0
IsOrdered b = (rest : List String) → accepts (b.lines ++ rest) [] ≡ accepts rest b.declared

accept_declaration :
    (full mtype help : String) (ls seen : List String)
    → without " " full ≡ true
    → accepts (declaration full mtype help ++ ls) seen
      ≡ (not (contains full seen) && accepts ls (full ∷ seen))
accept_declaration full mtype help ls seen h = elim (Bool-cases (help =s= "")) [
  | inl e ↦ rw (declaration, e) (accept_type full mtype ls seen h)
  | inr e ↦ rw (declaration, e) (accept_help full help _ seen ∙ accept_type full mtype ls seen h)
]

metric-IsOrdered :
    (name value : String) (labels : Dict String) (mtype help : String) (b : Buf)
    → is_series name ≡ true
    → IsOrdered b
    → IsOrdered (metric name value labels mtype help b)
unfolding metric
metric-IsOrdered name value labels mtype help b h ordered rest =
    let full = "gpuhealth_" <> name in
    let unspaced : without " " full ≡ true = ground (arith, full_name name h) in
    elim (Bool-cases (contains full b.declared)) [
      | inl e ↦
          rw (e, append-nil, ++_assoc, ordered)
            (accept_sample name _ value rest b.declared h ∙ rw e refl)
      | inr e ↦
          rw (e, ++_assoc, ++_assoc, ordered)
            (accept_declaration full mtype help _ b.declared unspaced
              ∙ rw e (accept_sample name _ value rest (full ∷ b.declared) h ∙ rw eq_refl refl))
    ]

abbrev IsSeries : Call → Type 0
IsSeries c = is_series c.name ≡ true

write-IsOrdered :
    (cs : List Call) (b : Buf) → All IsSeries cs → IsOrdered b → IsOrdered (write cs b)
unfolding write
write-IsOrdered [] b h ordered = ordered
write-IsOrdered (c ∷ cs) b h ordered =
    write-IsOrdered cs (metric c.name c.value c.labels c.mtype c.help_text b) h.1
      (metric-IsOrdered c.name c.value c.labels c.mtype c.help_text b h.0 ordered)

map-IsSeries :
    {A : Type 0} (f : A → Call) (xs : List A) → ((x : A) → IsSeries (f x)) → All IsSeries (map f xs)
map-IsSeries f [] h = tt
map-IsSeries f (x ∷ xs) h = (h x, map-IsSeries f xs h)

join-IsSeries : (xs ys : List Call) → All IsSeries xs → All IsSeries ys → All IsSeries (xs ++ ys)
join-IsSeries = All-append IsSeries

kernlog_calls-IsSeries : (k : Kernlog) → All IsSeries (kernlog_calls k)
unfolding kernlog_calls
kernlog_calls-IsSeries k =
    join-IsSeries _ (map file_call (sorted k.files_ok))
      (join-IsSeries (map event_call (sorted k.counts)) (map last_hit_call (sorted k.last_hit))
        (map-IsSeries event_call (sorted k.counts) (λ x. refl))
        (map-IsSeries last_hit_call (sorted k.last_hit) (λ x. refl)))
      (map-IsSeries file_call (sorted k.files_ok) (λ x. refl))

dstate_calls-IsSeries : (d : Option (Bool × Census)) → All IsSeries (dstate_calls d)
unfolding dstate_calls
dstate_calls-IsSeries none = (refl, (refl, (refl, (refl, (refl, (refl, (refl, (refl, tt))))))))
dstate_calls-IsSeries (some c) = (refl, (refl, (refl, (refl, (refl, (refl, (refl, (refl, tt))))))))

exporter_calls-IsSeries : (e : Option Reach) → All IsSeries (exporter_calls e)
unfolding exporter_calls
exporter_calls-IsSeries none = (refl, (refl, (refl, (refl, tt))))
exporter_calls-IsSeries (some e) =
    (refl, (refl, (refl, (refl, map-IsSeries gpu_call e.unhealthy (λ x. refl)))))

abbrev pub IsSeriesKey : String × ℤ → Type 0
IsSeriesKey (name, value) = is_series name ≡ true

-- The names of the patch counters can be names of series.
abbrev pub AreSeries : Option PatchCounters → Type 0
AreSeries none = Unit
AreSeries (some p) = All IsSeriesKey p.counters

patched : (cs : Dict ℤ) → All IsSeriesKey cs → All IsSeries (map patch_call cs)
patched [] h = tt
patched (c ∷ cs) h = (rw (all_chars-append, all_chars-append) (ground (arith, h.0)), patched cs h.1)

patch_calls-IsSeries : (p : Option PatchCounters) → AreSeries p → All IsSeries (patch_calls p)
unfolding patch_calls
patch_calls-IsSeries none h = (refl, tt)
patch_calls-IsSeries (some p) h =
    (refl, patched (sorted p.counters) (sorted-All IsSeriesKey p.counters h))

calls-IsSeries : (s : State) → AreSeries s.patch → All IsSeries (calls s)
unfolding calls agent_calls condition_calls
calls-IsSeries s h =
    let agent : All IsSeries (agent_calls s) = (refl, (refl, (refl, (refl, tt)))) in
    let c1 = agent_calls s ++ kernlog_calls s.kernlog in
    let c2 = c1 ++ dstate_calls s.dstate in
    let c3 = c2 ++ exporter_calls s.exporter in
    let c4 = c3 ++ patch_calls s.patch in
    let h1 =
      join-IsSeries (agent_calls s) (kernlog_calls s.kernlog) agent
        (kernlog_calls-IsSeries s.kernlog) in
    let h2 = join-IsSeries c1 (dstate_calls s.dstate) h1 (dstate_calls-IsSeries s.dstate) in
    let h3 = join-IsSeries c2 (exporter_calls s.exporter) h2 (exporter_calls-IsSeries s.exporter) in
    let h4 = join-IsSeries c3 (patch_calls s.patch) h3 (patch_calls-IsSeries s.patch h) in
    join-IsSeries c4 (map condition_call (sorted s.conditions)) h4
      (map-IsSeries condition_call (sorted s.conditions) (λ x. refl))

-- Whatever the state is, no series is declared twice in the lines that the agent serves, and every sample
-- stands behind the declaration of its series, if the names of the patch counters hold no space and no
-- opening brace. It says nothing on whether the samples of a series stand together.
pub collect-accepts :
    (node : String) (s : State) → AreSeries s.patch → accepts (collect node s).lines [] ≡ true
unfolding collect
collect-accepts node s h =
    let empty : Buf = record { node = node; lines = []; declared = [] } in
    let ordered = write-IsOrdered (calls s) empty (calls-IsSeries s h) (λ rest. refl) [] in
    unfold accepts in rw append-nil at ordered
