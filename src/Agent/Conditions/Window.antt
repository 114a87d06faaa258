-- ===== src/Agent/Conditions/Window.antt =====
-- The sliding window of agent/gpu_health_agent/conditions.py: the deque against the list of all samples.
use gpu_node_health.Base.{
  ◌≡◌, refl, sym, ap, ◌∙◌, true, false, Option, none, some, List, [], ◌∷◌, ◌++◌, inl, inr,
  Bool-cases, arith, if◌then◌else◌,
}
use mathlib.Core.List.{append-nil, append_assoc}
use gpu_node_health.Base.Int.{ℤ, pos, ◌-ℤ◌, ◌≤ℤ◌, Instant}
use gpu_node_health.Agent.Conditions.Infos.{Evaluator}
use gpu_node_health.Agent.Conditions.{Sample, is_old, drop_old, record_sample}

-- The history after an evaluation of each sample.
unfoldable pub replay : Evaluator → List Sample → List Sample → List Sample
replay e history [] = history
replay e history (s ∷ ss) = replay e (record_sample e s.at s.counts history) ss

-- The clock of the samples never goes back from `last` on.
abbrev pub Ordered : Instant → List Sample → Type 0
Ordered last [] = Unit
Ordered last (s ∷ ss) = (last ≤ℤ s.at) × Ordered s.at ss

abbrev pub head? : List Sample → Option Sample
head? [] = none
head? (s ∷ ss) = some s

-- The oldest sample of a list that is still in the window.
unfoldable pub first_recent : ℤ → Instant → List Sample → Option Sample
first_recent window now [] = none
first_recent window now (s ∷ ss) =
    let found = first_recent window now ss in if is_old window now s then found else some s

abbrev last_at : Instant → List Sample → Instant
last_at last [] = last
last_at last (s ∷ ss) = last_at s.at ss

is_old-le :
    (window : ℤ) (now now' : Instant) (s : Sample)
    → now ≤ℤ now'
    → is_old window now s ≡ true
    → is_old window now' s ≡ true
unfolding ◌-ℤ◌
is_old-le window now now' s le old = ground arith

drop_old-drop_old :
    (window : ℤ) (now now' : Instant) (log : List Sample) (x : Sample)
    → now ≤ℤ now'
    → drop_old window now' (drop_old window now log ++ x ∷ [])
      ≡ drop_old window now' (log ++ x ∷ [])
unfolding drop_old
drop_old-drop_old window now now' [] x le = refl
drop_old-drop_old window now now' (s ∷ []) x le = refl
drop_old-drop_old window now now' (s ∷ t ∷ rest) x le = elim (Bool-cases (is_old window now s)) [
  | inl old ↦
      rw (old, is_old-le window now now' s le old)
        (drop_old-drop_old window now now' (t ∷ rest) x le)
  | inr recent ↦ rw recent
]

replay-drop_old :
    (e : Evaluator) (ss : List Sample) (last : Instant) (log history : List Sample)
    → Ordered last ss
    → history ≡ drop_old e.window last log
    → replay e history ss ≡ drop_old e.window (last_at last ss) (log ++ ss)
unfolding replay record_sample
replay-drop_old e [] last log history o h = h ∙ ap (drop_old e.window last) (sym (append-nil log))
replay-drop_old e (s ∷ ss) last log history o h =
    replay-drop_old e ss s.at (log ++ s ∷ []) (record_sample e s.at s.counts history) o.1 (
      ap (λ k. drop_old e.window s.at (k ++ s ∷ [])) h
      ∙ drop_old-drop_old e.window last s.at log s o.0)
    ∙ ap (drop_old e.window (last_at s.at ss)) (append_assoc log (s ∷ []) ss)

last_at-append :
    (last : Instant) (ss : List Sample) (s : Sample) → last_at last (ss ++ s ∷ []) ≡ s.at
last_at-append last [] s = refl
last_at-append last (t ∷ ss) s = last_at-append t.at ss s

-- The last sample is kept, which is right where it is in the window itself.
head?-drop_old :
    (window : ℤ) (ss : List Sample) (s : Sample)
    → is_old window s.at s ≡ false
    → head? (drop_old window s.at (ss ++ s ∷ [])) ≡ first_recent window s.at (ss ++ s ∷ [])
unfolding drop_old first_recent
head?-drop_old window [] s recent = rw recent
head?-drop_old window (t ∷ []) s recent = elim (Bool-cases (is_old window s.at t)) [
  | inl old ↦ rw (old, recent)
  | inr young ↦ rw young
]
head?-drop_old window (t ∷ u ∷ rest) s recent = elim (Bool-cases (is_old window s.at t)) [
  | inl old ↦ rw old (head?-drop_old window (u ∷ rest) s recent)
  | inr young ↦ rw young
]

pub is_old_self : (window : ℤ) (s : Sample) → pos 0 ≤ℤ window → is_old window s.at s ≡ false
unfolding ◌-ℤ◌
is_old_self window s h = ground arith

-- However many samples came before, the first one in the deque is the oldest of all samples that is
-- still in the window, where the clock does not go back and the window is not negative.
pub head?-replay :
    (e : Evaluator) (start : Instant) (ss : List Sample) (s : Sample)
    → pos 0 ≤ℤ e.window
    → Ordered start (ss ++ s ∷ [])
    → head? (replay e [] (ss ++ s ∷ [])) ≡ first_recent e.window s.at (ss ++ s ∷ [])
head?-replay e start ss s w o =
    ap head? (replay-drop_old e (ss ++ s ∷ []) start [] [] o (unfold drop_old in refl))
    ∙ ap (λ t. head? (drop_old e.window t (ss ++ s ∷ []))) (last_at-append start ss s)
    ∙ head?-drop_old e.window ss s (is_old_self e.window s w)
