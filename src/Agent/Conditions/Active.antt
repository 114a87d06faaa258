-- ===== src/Agent/Conditions/Active.antt =====
-- When the conditions of agent/gpu_health_agent/conditions.py are active.
use gpu_node_health.Base.{
  ℕ, ◌<◌, String, ◌≡◌, refl, sym, ap, subst, ◌∙◌, ◌⊎◌, inl, inr, ◌↔◌, Bool, true, false, Option,
  none, some, List, [], ◌∷◌, ◌++◌, ltb, In, All, arith, ltb→lt, lt→ltb, Bool-cases,
}
use gpu_node_health.Base.Int.{pos, ◌≤ℤ◌, ◌<ℤ◌, Instant}
use gpu_node_health.Base.Dict.{Dict, get, default_to}
use gpu_node_health.Agent.Signals.{Kernlog, Dstate, Exporter}
use gpu_node_health.Agent.Conditions.Infos.{
  Info, Evaluator, unrecoverable, workqueue_stalled, engine_timeout,
}
use gpu_node_health.Agent.Conditions.{
  Sample, is_old, baseline, hits, fatal_hang_rules, workqueue_rules, engine_rules, conditions,
  record_sample, evaluate,
}
use gpu_node_health.Agent.Conditions.Window.{
  replay, Ordered, head?, first_recent, head?-replay, is_old_self,
}

abbrev pub active_as : Option Info → Bool
active_as none = false
active_as (some info) = info.active

-- Whether a condition is there and active.
abbrev pub active_of : String → Dict Info → Bool
active_of name detail = active_as (get name detail)

abbrev pub count_of : String → Dict ℕ → ℕ
count_of r counts = default_to 0 (get r counts)

-- The counter of one of the rules is higher than it was.
abbrev pub Grew : Dict ℕ → Dict ℕ → List String → Type 0
Grew base counts rules = (r : String) × In r rules × (count_of r base < count_of r counts)

hits→Grew :
    (base counts : Dict ℕ) (rules : List String)
    → 0 < hits base counts rules
    → Grew base counts rules
unfolding hits
hits→Grew base counts [] h = let absurd : ⊥ = omega arith in elim absurd [ ]
hits→Grew base counts (r ∷ rules) h =
    elim (Bool-cases (ltb (count_of r base) (count_of r counts))) [
      | inl more ↦ (r, inl refl, ltb→lt _ _ more)
      | inr same ↦ let (q, m, l) = hits→Grew base counts rules (ground arith) in (q, inr m, l)
    ]

Grew→hits :
    (base counts : Dict ℕ) (rules : List String) (r : String)
    → In r rules
    → count_of r base < count_of r counts
    → 0 < hits base counts rules
unfolding hits
Grew→hits base counts [] r m l = elim m [ ]
Grew→hits base counts (q ∷ rules) r (inl e) l =
    let l' : count_of q base < count_of q counts =
      subst (λ x. count_of x base < count_of x counts) e l in
    omega arith
Grew→hits base counts (q ∷ rules) r (inr m) l = omega (arith, Grew→hits base counts rules r m l)

hits_same : (counts : Dict ℕ) (rules : List String) → hits counts counts rules ≡ 0
unfolding hits
hits_same counts [] = refl
hits_same counts (r ∷ rules) = omega (arith, hits_same counts rules)

module _ (e : Evaluator) (start : Instant) (ss : List Sample) (kernlog : Kernlog) (dstate : Dstate)
    (exporter : Exporter) (now : Instant) where
  abbrev pub current : Sample
  current = record { at = now; counts = kernlog.counts }

  -- The dict that the evaluation at `now` returns after those of the samples `ss`.
  abbrev pub detail_after : Dict Info
  detail_after = (evaluate e now kernlog dstate exporter (replay e [] ss)).0

  abbrev pub samples : List Sample
  samples = ss ++ current ∷ []

  replay-append :
      (history : List Sample) (ts : List Sample) (s : Sample)
      → replay e history (ts ++ s ∷ []) ≡ record_sample e s.at s.counts (replay e history ts)
  unfolding replay
  replay-append history [] s = refl
  replay-append history (t ∷ ts) s = replay-append (record_sample e t.at t.counts history) ts s

  baseline_at :
      (history : List Sample) (b : Sample) → head? history ≡ some b → baseline history ≡ b.counts
  baseline_at [] b h = cc
  baseline_at (s ∷ rest) b h = grind arith

  -- The baseline of the evaluation is the oldest of all samples in the window.
  baseline_lem :
      (b : Sample)
      → pos 0 ≤ℤ e.window
      → Ordered start samples
      → first_recent e.window now samples ≡ some b
      → baseline (record_sample e now kernlog.counts (replay e [] ss)) ≡ b.counts
  baseline_lem b w o f =
      baseline_at _ b
        (ap head? (sym (replay-append [] ss current)) ∙ head?-replay e start ss current w o ∙ f)

  -- GPUUnrecoverable is active exactly if the counter of a fatal rule is higher than it was in the
  -- oldest of all samples that is still in the window.
  pub unrecoverable_iff :
      (b : Sample)
      → pos 0 ≤ℤ e.window
      → Ordered start samples
      → first_recent e.window now samples ≡ some b
      → (active_of "GPUUnrecoverable" detail_after ≡ true)
        ↔ Grew b.counts kernlog.counts fatal_hang_rules
  unfolding evaluate conditions unrecoverable get
  unrecoverable_iff b w o f =
      let same = baseline_lem b w o f in
      (
        λ a.
            hits→Grew b.counts kernlog.counts fatal_hang_rules
              (subst (λ c. 0 < hits c kernlog.counts fatal_hang_rules) same (ltb→lt _ _ a)),
        λ (r, m, l). lt→ltb _ _ (
            subst (λ c. 0 < hits c kernlog.counts fatal_hang_rules) (sym same)
              (Grew→hits b.counts kernlog.counts fatal_hang_rules r m l)),
      )

  first_recent_same :
      (ts : List Sample)
      → All (λ b. (is_old e.window now b ≡ true) ⊎ (b.counts ≡ kernlog.counts)) ts
      → is_old e.window now current ≡ false
      → (b : Sample) × (first_recent e.window now (ts ++ current ∷ []) ≡ some b)
        × (b.counts ≡ kernlog.counts)
  unfolding first_recent
  first_recent_same [] h young = rw young (current, refl, refl)
  first_recent_same (t ∷ ts) h young = elim (Bool-cases (is_old e.window now t)) [
    | inl old ↦ rw old (first_recent_same ts h.1 young)
    | inr recent ↦ rw recent (t, refl, ground (arith, h.0))
  ]

  -- The conditions that rest on the kernel log clear by themselves: if the counters of every sample in
  -- the window are those of now, if an engine timeout needs to recur at all, and if no thread is
  -- stuck, then GPUUnrecoverable, GPUWorkqueueStalled and GPUEngineTimeout are inactive.
  log_conditions_clear :
      pos 0 ≤ℤ e.window
      → Ordered start samples
      → All (λ b. (is_old e.window now b ≡ true) ⊎ (b.counts ≡ kernlog.counts)) ss
      → pos 0 <ℤ e.engine_recurrence
      → default_to 0 dstate.gpu_stuck ≡ 0
      → (active_of "GPUUnrecoverable" detail_after ≡ false)
        × (active_of "GPUWorkqueueStalled" detail_after ≡ false)
        × (active_of "GPUEngineTimeout" detail_after ≡ false)
  unfolding evaluate conditions unrecoverable workqueue_stalled engine_timeout get
  log_conditions_clear w o h recurrence idle =
      let (b, found, same) = first_recent_same ss h (is_old_self e.window current w) in
      let base = baseline_lem b w o found ∙ same in
      let none : (rules : List String)
          → hits (baseline (record_sample e now kernlog.counts (replay e [] ss))) kernlog.counts
              rules
            ≡ 0 =
        λ rules. ap (λ c. hits c kernlog.counts rules) base ∙ hits_same kernlog.counts rules in
      (
        ground (arith, none fatal_hang_rules),
        ground (arith, none workqueue_rules, idle),
        ground (arith, none engine_rules, recurrence),
      )
