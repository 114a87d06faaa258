-- ===== src/Agent/Conditions/Stale.antt =====
-- When agent/gpu_health_agent/conditions.py reports that its own data is not to be trusted.
use gpu_node_health.Base.{
  String, ◌≡◌, refl, ap, ◌∙◌, Bool, true, false, not, ◌||◌, List, [], ◌∷◌, ◌++◌, arith,
  if◌then◌else◌,
}
use gpu_node_health.Base.Lists.{insert_sorted, sorted}
use gpu_node_health.Base.Int.{Instant}
use gpu_node_health.Base.Dict.{Dict, get}
use gpu_node_health.Agent.Signals.{Kernlog, Dstate, Exporter}
use gpu_node_health.Agent.Conditions.Infos.{
  Evaluator, is_false, unreadable, blind_sources, stale_from,
}
use gpu_node_health.Agent.Conditions.{Sample, conditions, evaluate}
use gpu_node_health.Agent.Conditions.Active.{active_of}

-- Some file of the dict cannot be read.
abbrev pub some_unread : Dict Bool → Bool
some_unread [] = false
some_unread ((path, ok) ∷ rest) = not ok || some_unread rest

abbrev is_some : List String → Bool
is_some [] = false
is_some (s ∷ ss) = true

is_some-append : (xs ys : List String) → is_some (xs ++ ys) ≡ (is_some xs || is_some ys)
is_some-append [] ys = refl
is_some-append (x ∷ xs) ys = refl

is_some-insert_sorted :
    (path : String) (ok : Bool) (files : Dict Bool)
    → is_some (unreadable (insert_sorted path ok files)) ≡ (not ok || is_some (unreadable files))
unfolding unreadable insert_sorted
is_some-insert_sorted path ok [] = ground arith
is_some-insert_sorted path ok ((q, other) ∷ rest) =
    ground (arith, is_some-insert_sorted path ok rest)

is_some-sorted : (files : Dict Bool) → is_some (unreadable (sorted files)) ≡ some_unread files
unfolding sorted unreadable
is_some-sorted [] = refl
is_some-sorted ((path, ok) ∷ rest) =
    is_some-insert_sorted path ok (sorted rest) ∙ ap (λ b. not ok || b) (is_some-sorted rest)

active-stale_from : (blind : List String) → (stale_from blind).active ≡ is_some blind
unfolding stale_from
active-stale_from [] = refl
active-stale_from (b ∷ bs) = refl

-- GPUHealthDataStale is active exactly if /proc or a log file cannot be read, whatever the history and
-- the other sources say.
pub stale_iff_blind :
    (e : Evaluator) (now : Instant) (kernlog : Kernlog) (dstate : Dstate) (exporter : Exporter)
    (history : List Sample)
    → active_of "GPUHealthDataStale" (evaluate e now kernlog dstate exporter history).0
      ≡ (is_false dstate.readable || some_unread kernlog.files_ok)
unfolding evaluate conditions blind_sources get
stale_iff_blind e now kernlog dstate exporter history =
    active-stale_from _
    ∙ is_some-append (if is_false dstate.readable then "/proc unreadable" ∷ [] else [])
        (unreadable (sorted kernlog.files_ok))
    ∙ ground (arith, is_some-sorted kernlog.files_ok)
