-- ===== src/Agent/Kernlog/Reopen.antt =====
-- A failed reopen in agent/gpu_health_agent/signals/kernlog.py, `_pump`, and what `_run` makes of it.
use gpu_node_health.Base.{
  ℕ, String, ◌≡◌, ◌≢◌, refl, ap, sym, subst, ◌∙◌, Bool, true, false, Option, none, some, List, [],
  ◌∷◌, ◌++◌, map, ◌==◌, ◌=s=◌, eq_iff, contains, Bool-cases, inl, inr, arith, if◌then◌else◌,
}
use gpu_node_health.Base.Int.{Instant}
use gpu_node_health.Base.Dict.{Dict, get, put, get-put}
use gpu_node_health.Agent.Kernlog.{
  Tally, Handle, found, Disk, failed, Watch, pump, pump_found, open_file,
}
use gpu_node_health.Agent.Kernlog.Watcher.{Watcher, keep_handle, after_pump, run_path, run_pass}

-- The answers for a path that leads to the file `inode`.
abbrev pub leading_to : ℕ → Disk → Disk
leading_to inode disk = record disk { stat = found inode }

-- What the watcher knows of a path.
abbrev known : String → Watcher → Option Handle × Option Bool
known path s = (get path s.handles, get path s.files_ok)

get-keep_handle :
    (path other : String) (h : Option Handle) (handles : Dict Handle)
    → (other =s= path) ≡ false
    → get path (keep_handle other h handles) ≡ get path handles
get-keep_handle path other none handles n = refl
get-keep_handle path other (some h) handles n = get-put other path h handles ∙ rw n

known-after_pump :
    (path other : String) (w : Watch) (ok : Option Bool) (s : Watcher)
    → (other =s= path) ≡ false
    → known path (after_pump other w ok s).1 ≡ known path s
known-after_pump path other w none s n =
    ap (λ h. (h, get path s.files_ok)) (get-keep_handle path other w.handle s.handles n)
known-after_pump path other w (some ok) s n =
    ap (λ h. (h, get path (put other ok s.files_ok)))
      (get-keep_handle path other w.handle s.handles n)
    ∙ ap (λ o. (get path s.handles, o)) (get-put other path ok s.files_ok ∙ rw n)

module _ (search : String → String → Bool) (from_start : Bool) (now : Instant) where
  known-run_pass :
      (path : String) (rest : List (String × Disk)) (s : Watcher)
      → contains path (map (λ r. r.0) rest) ≡ false
      → known path (run_pass search from_start now rest s).1 ≡ known path s
  unfolding run_pass run_path
  known-run_pass path [] s n = refl
  known-run_pass path ((other, disk) ∷ rest) s n =
      let (runs, s') = run_path search from_start now other disk s in
      let kept : known path s' ≡ known path s =
        known-after_pump path other _ _ s (ground (arith, eq_iff path other, eq_iff other path)) in
      elim (Bool-cases runs) [
        | inl e ↦ rw e (known-run_pass path rest s' (ground arith) ∙ kept)
        | inr e ↦ rw e kept
      ]

  -- A call for a rotated file that cannot be opened.
  pump-unopened :
      (disk : Disk) (h : Handle) (t : Tally) (inode : ℕ)
      → h.closed ≡ false
      → h.inode ≢ inode
      → disk.opened ≡ none
      → let r =
          pump search from_start
            (leading_to inode disk)
            now
            (record { handle = some h; tally = t }) in
        (r.0 ≡ failed) × (r.1.handle ≡ some (record h { closed = true }))
  unfolding pump pump_found open_file
  pump-unopened disk h t inode o r e =
      let differ : (h.inode == inode) ≡ false = ground arith in rw (o, differ, e) (refl, refl)

  known-unopened :
      (path : String) (disk : Disk) (s : Watcher) (h : Handle) (inode : ℕ)
      → get path s.handles ≡ some h
      → h.closed ≡ false
      → h.inode ≢ inode
      → disk.opened ≡ none
      → let r = run_path search from_start now path (leading_to inode disk) s in
        (r.0 ≡ true) × (known path r.1 ≡ (some (record h { closed = true }), some false))
  unfolding run_path
  known-unopened path disk s h inode g o r e =
      let q = pump-unopened disk h s.tally inode o r e in
      let same : (path =s= path) ≡ true = (eq_iff path path).1 refl in
      rw (g, q.0, q.1) (refl, rw (get-put, get-put, same))

  -- A pass over a list is a pass over its first part, and over the other part if the thread still runs.
  abbrev go_on : List (String × Disk) → Bool × Watcher → Bool × Watcher
  go_on ys (true, s) = run_pass search from_start now ys s
  go_on ys (false, s) = (false, s)

  run_pass-append :
      (xs ys : List (String × Disk)) (s : Watcher)
      → run_pass search from_start now (xs ++ ys) s ≡ go_on ys (run_pass search from_start now xs s)
  unfolding run_pass
  run_pass-append [] ys s = refl
  run_pass-append ((path, disk) ∷ xs) ys s =
      let (runs, s') = run_path search from_start now path disk s in
      elim (Bool-cases runs) [
        | inl e ↦ rw (run_pass, e) (run_pass-append xs ys s')
        | inr e ↦ rw (run_pass, e) refl
      ]

  -- A file whose closed handle is still in the table ends the pass, and adds nothing to what the files
  -- before it have left.
  IsEnded : Bool × Watcher → Watcher → Type 0
  IsEnded r s = (r.0 ≡ false) × (r.1.tally ≡ s.tally) × (r.1.files_ok ≡ s.files_ok)

  dead_pass :
      (path : String) (disk : Disk) (rest : List (String × Disk)) (s : Watcher) (h : Handle)
      (inode : ℕ)
      → get path s.handles ≡ some h
      → h.closed ≡ true
      → IsEnded (run_pass search from_start now ((path, leading_to inode disk) ∷ rest) s) s
  unfolding IsEnded run_pass run_path pump pump_found
  dead_pass path disk rest s h inode g c = rw (g, c) (refl, refl, refl)

  go_on-dead :
      (path : String) (disk : Disk) (rest : List (String × Disk)) (r : Bool × Watcher) (h : Handle)
      (inode : ℕ)
      → get path r.1.handles ≡ some h
      → h.closed ≡ true
      → IsEnded (go_on ((path, leading_to inode disk) ∷ rest) r) r.1
  go_on-dead path disk rest (true, s) h inode g c = dead_pass path disk rest s h inode g c
  go_on-dead path disk rest (false, s) h inode g c = unfold IsEnded in (refl, refl, refl)

  -- The pass in which the open fails, from a state in which the handle is open.
  known-reopen :
      (path : String) (disk : Disk) (rest : List (String × Disk)) (r : Bool × Watcher) (h : Handle)
      (inode : ℕ)
      → get path r.1.handles ≡ some h
      → h.closed ≡ false
      → h.inode ≢ inode
      → disk.opened ≡ none
      → contains path (map (λ x. x.0) rest) ≡ false
      → r.0 ≡ true
      → known path (go_on ((path, leading_to inode disk) ∷ rest) r).1
        ≡ (some (record h { closed = true }), some false)
  unfolding run_pass
  known-reopen path disk rest (false, s) h inode g o d e n runs = cc
  known-reopen path disk rest (true, s) h inode g o d e n runs =
      let first = run_path search from_start now path (leading_to inode disk) s in
      let (runs, k) = known-unopened path disk s h inode g o d e in
      ap
        (λ b.
          known path
            (if b then run_pass search from_start now rest first.1 else (false, first.1)).1)
        runs
      ∙ known-run_pass path rest first.1 n
      ∙ k

  -- A log file that has been rotated and cannot be opened at that moment ends the watch of all files,
  -- wherever it stands in the list: if the thread comes to it in that pass, the pass records it as
  -- unreadable and keeps the handle that it has closed. The next pass that finds a file at the path ends
  -- there at the latest, in the exception of `tell` on a closed file, though the file can be opened by
  -- then. It leaves the counts and the flags as the files before this one in the list have left them, so
  -- that no file behind it is read, and this one is still shown as unreadable. The path stands once in
  -- the list of the first pass, and in that of the second only once up to there.
  pub failed_reopen_ends :
      (path : String) (disk later : Disk) (before rest before' rest' : List (String × Disk))
      (s : Watcher) (h : Handle) (inode other : ℕ)
      → get path s.handles ≡ some h
      → h.closed ≡ false
      → h.inode ≢ inode
      → disk.opened ≡ none
      → contains path (map (λ r. r.0) before) ≡ false
      → contains path (map (λ r. r.0) rest) ≡ false
      → contains path (map (λ r. r.0) before') ≡ false
      → (run_pass search from_start now before s).0 ≡ true
      → let s' =
          (run_pass search from_start now (before ++ (path, leading_to inode disk) ∷ rest) s).1 in
        let seen = (run_pass search from_start now before' s').1 in
        let r =
          run_pass search from_start now (before' ++ (path, leading_to other later) ∷ rest') s' in
        (get path s'.files_ok ≡ some false)
        × (r.0 ≡ false)
        × (r.1.tally ≡ seen.tally)
        × (r.1.files_ok ≡ seen.files_ok)
        × (get path r.1.files_ok ≡ some false)
  unfolding IsEnded
  failed_reopen_ends path disk later before rest before' rest' s h inode other g o d e n m n' runs =
      let first = run_pass search from_start now before s in
      let s' =
        (run_pass search from_start now (before ++ (path, leading_to inode disk) ∷ rest) s).1 in
      let seen = run_pass search from_start now before' s' in
      let kept = known-run_pass path before s n in
      let closed : known path s' ≡ (some (record h { closed = true }), some false) =
        ap (λ r. known path r.1) (run_pass-append before ((path, leading_to inode disk) ∷ rest) s)
        ∙ known-reopen path disk rest first h inode (ap (λ x. x.0) kept ∙ g) o d e m runs in
      let still : known path seen.1 ≡ (some (record h { closed = true }), some false) =
        known-run_pass path before' s' n' ∙ closed in
      let (ended, tally, flags) =
        subst (λ r. IsEnded r seen.1)
          (sym (run_pass-append before' ((path, leading_to other later) ∷ rest') s'))
          (go_on-dead path later rest' seen (record h { closed = true }) other (ap (λ x. x.0) still)
            refl) in
      (ap (λ x. x.1) closed, ended, tally, flags, ap (get path) flags ∙ ap (λ x. x.1) still)
