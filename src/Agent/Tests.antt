-- ===== src/Agent/Tests.antt =====
-- Runs of the agent, and its theorems at them.
use gpu_node_health.Base.{
  String, ◌≡◌, refl, ◌↔◌, Bool, true, false, ◌||◌, ◌&&◌, none, some, List, [], ◌∷◌, ◌++◌, ◌<>◌,
  arith, ◌=s=◌, chars,
}
use gpu_node_health.Base.Int.{pos, ◌-ℤ◌}
use gpu_node_health.Base.Dict.{Dict, get, default_to}
use gpu_node_health.Agent.Signals.{no_dstate, no_exporter}
use gpu_node_health.Agent.Conditions.Infos.{Info}
use gpu_node_health.Agent.Conditions.{Sample, fatal_hang_rules, is_old}
use gpu_node_health.Agent.Conditions.Window.{replay, head?, first_recent, head?-replay}
use gpu_node_health.Agent.Conditions.Active.{active_of, Grew, unrecoverable_iff, detail_after}
use gpu_node_health.Agent.Collector.{idle}
use gpu_node_health.Agent.Collector.Passes.{Pass, Outcome, collect_all, collect_all-idle}
use gpu_node_health.Agent.Publisher.{silent}
use gpu_node_health.Agent.Publisher.Flips.{flipped, log_of, publish_all, transition-publish_all}
use gpu_node_health.Agent.Kernlog.{Disk, Watch, no_hits, pump, pumped}
use gpu_node_health.Agent.Kernlog.Tail.{
  in_place, follow, matched, matched_all, tail_exact, after_rotation, open_at, pump-rotated,
}
use gpu_node_health.Agent.Kernlog.Watcher.{run_path, Watcher, fresh_watcher, run_pass}
use gpu_node_health.Agent.Kernlog.Reopen.{leading_to, failed_reopen_ends}
use gpu_node_health.Agent.Samples.{evaluator, resets, log_with, earlier, down, up}

-- What a test of the evaluator unfolds.
sampling : Unit {0}
unfolding first_recent ◌-ℤ◌ get default_to
sampling = tt

-- The sample of an evaluation at 1600 seconds.
abbrev now_sample : Sample
now_sample = record { at = pos 1600000000; counts = resets 5 }

head?-replay_example :
    head? (replay evaluator [] (earlier ++ now_sample ∷ []))
    ≡ first_recent evaluator.window now_sample.at (earlier ++ now_sample ∷ [])
head?-replay_example =
    head?-replay evaluator (pos 0) earlier now_sample (omega arith)
      (omega arith, (omega arith, (omega arith, tt)))

abbrev second : Sample
second = record { at = pos 1500000000; counts = resets 3 }

second_is_first_recent :
    first_recent evaluator.window
      (pos 1600000000)
      (earlier ++ record { at = pos 1600000000; counts = (log_with 5).counts } ∷ [])
    ≡ some second
unfolding sampling
second_is_first_recent = refl

unrecoverable_iff_example :
    (active_of "GPUUnrecoverable"
        (detail_after evaluator (pos 0) earlier (log_with 5) no_dstate no_exporter (pos 1600000000))
      ≡ true)
    ↔ Grew second.counts (log_with 5).counts fatal_hang_rules
unrecoverable_iff_example =
    unrecoverable_iff evaluator (pos 0) earlier (log_with 5) no_dstate no_exporter (pos 1600000000)
      second (omega arith) (omega arith, (omega arith, (omega arith, tt))) second_is_first_recent

first_is_old :
    is_old evaluator.window (pos 1600000000) (record { at = pos 100000000; counts = resets 0 })
    ≡ true
unfolding sampling
first_is_old = refl

abbrev passes : List Pass
passes =
    (
      pos 1000000,
      some (record { kernlog = log_with 0; dstate = no_dstate; exporter = no_exporter }),
    )
    ∷ (pos 2000000, none)
    ∷ []

collect_all-idle_example : Outcome evaluator idle (collect_all evaluator idle passes) passes
collect_all-idle_example = collect_all-idle evaluator passes

abbrev publishes : List (String × Dict Info)
publishes =
    ("10:00", ("GPUUnrecoverable", up) ∷ [])
    ∷ ("10:01", ("GPUUnrecoverable", down) ∷ [])
    ∷ ("10:02", ("GPUUnrecoverable", down) ∷ [])
    ∷ []

transition-publish_all_example :
    get "GPUUnrecoverable" (publish_all silent publishes).transitions
    ≡ flipped (log_of "GPUUnrecoverable" [] publishes)
transition-publish_all_example = transition-publish_all "GPUUnrecoverable" publishes refl

flip_at_10_01 : flipped (log_of "GPUUnrecoverable" [] publishes) ≡ some "10:01"
unfolding log_of get
flip_at_10_01 = refl

-- Every rule hits the line that is its name, and the two rules for blocked tasks also hit "blocked".
abbrev by_name : String → String → Bool
by_name rule line =
    (rule =s= line)
    || ((line =s= "blocked")
        && ((rule =s= "gpu_workqueue_blocked") || (rule =s= "other_task_blocked")))

abbrev unseen : Watch
unseen = record { handle = none; tally = no_hits }

tail_exact_example :
    (follow by_name false
      (pos 0)
      7
      "old\n"
      ("vram_lost\n" ∷ "usb\n" ∷ [])
      (pump by_name false (in_place 7 "old\n") (pos 0) unseen).1).tally
    ≡ matched_all by_name false (pos 0) ("vram_lost\n" ∷ "usb\n" ∷ []) no_hits
tail_exact_example =
    tail_exact by_name false (pos 0) 7 "old\n" ("vram_lost\n" ∷ "usb\n" ∷ []) no_hits refl

pump-rotated_example :
    pump by_name false
      (after_rotation 7 8 ("a\n" <> "vram_lost\n") "usb\n")
      (pos 0)
      (record { handle = some (open_at 7 (chars "a\n")); tally = no_hits })
    ≡ (
      pumped,
      record {
        handle = some (open_at 8 (chars "usb\n"));
        tally =
            matched by_name false
              (pos 0)
              "usb\n"
              (matched by_name false (pos 0) "vram_lost\n" no_hits);
      },
    )
pump-rotated_example =
    pump-rotated by_name false (pos 0) 7 8 "a\n" "vram_lost\n" "usb\n" no_hits (omega arith)

-- The file at the path cannot be opened.
abbrev unopened : Disk
unopened = record (in_place 8 "usb\n") { opened = none }

abbrev watching : Watcher
watching = record fresh_watcher {
  handles = ("/var/log/syslog", open_at 7 2) ∷ ("/var/log/kern.log", open_at 9 0) ∷ [];
}

-- The other file can be read all the time.
abbrev others : List (String × Disk)
others = ("/var/log/kern.log", in_place 9 "vram_lost\n") ∷ []

-- The path is the second of its list, and the first one can be read.
abbrev kern_log : List (String × Disk)
kern_log = ("/var/log/kern.log", in_place 9 "vram_lost\n") ∷ []

kern_log_runs : (run_pass by_name false (pos 0) kern_log watching).0 ≡ true
unfolding run_pass run_path pump get
kern_log_runs = refl

failed_reopen_ends_example :
    let s' =
      (run_pass by_name false
        (pos 0)
        (kern_log ++ ("/var/log/syslog", leading_to 8 unopened) ∷ [])
        watching).1 in
    let seen = (run_pass by_name false (pos 0) kern_log s').1 in
    let r =
      run_pass by_name false
        (pos 0)
        (kern_log ++ ("/var/log/syslog", leading_to 8 (in_place 8 "usb\n")) ∷ [])
        s' in
    (get "/var/log/syslog" s'.files_ok ≡ some false)
    × (r.0 ≡ false)
    × (r.1.tally ≡ seen.tally)
    × (r.1.files_ok ≡ seen.files_ok)
    × (get "/var/log/syslog" r.1.files_ok ≡ some false)
failed_reopen_ends_example =
    failed_reopen_ends by_name false (pos 0) "/var/log/syslog" unopened (in_place 8 "usb\n")
      kern_log [] kern_log [] watching (open_at 7 2) 8 8 (unfold get in refl) refl (omega arith)
      refl refl refl refl kern_log_runs
