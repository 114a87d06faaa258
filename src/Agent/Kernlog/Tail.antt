-- ===== src/Agent/Kernlog/Tail.antt =====
-- The tail of a log file by agent/gpu_health_agent/signals/kernlog.py, `_pump`.
use gpu_node_health.Base.{
  ℕ, String, ◌<>◌, ◌≡◌, ◌≢◌, refl, ap, sym, ◌≤◌, ◌∙◌, Bool, true, false, none, some, List, [], ◌∷◌,
  ltb, ◌==◌, arith, chars, drop_chars, drop_chars-chars, chars-append, if◌then◌else◌,
}
use text.Mathlib.TextLemmas.{append-nil}
use gpu_node_health.Base.Int.{Instant}
use gpu_node_health.Agent.Kernlog.{
  Tally, match_lines, lines_from, Handle, found, Disk, pumped, Watch, consume, pump, pump_found,
  open_file, read_on,
}

abbrev pub open_at : ℕ → ℕ → Handle
open_at inode position = record { inode = inode; position = position; closed = false }

-- The answers while a file is in its place and can be opened.
abbrev pub in_place : ℕ → String → Disk
in_place inode text = record { stat = found inode; opened = some inode; content = λ i. text }

-- The answers after a rotation: the path leads to a new file, and the old one is still there for who
-- has it open.
abbrev pub after_rotation : ℕ → ℕ → String → String → Disk
after_rotation old new old_text new_text = record {
  stat = found new;
  opened = some new;
  content = λ i. if i == old then old_text else new_text;
}

module _ (search : String → String → Bool) (from_start : Bool) (now : Instant) where
  -- The lines of a text, matched.
  abbrev pub matched : String → Tally → Tally
  matched text t = match_lines search now (lines_from "" text) t

  read_on_lem :
      (disk : Disk) (h : Handle) (t : Tally) (text rest : String)
      → disk.content h.inode ≡ text
      → drop_chars h.position text ≡ rest
      → h.position ≤ chars text
      → read_on search from_start disk now h t ≡ (
        pumped,
        record { handle = some (record h { position = chars text }); tally = matched rest t },
      )
  unfolding consume
  read_on_lem disk h t text rest c d le =
      let advanced : (if ltb h.position (chars text) then chars text else h.position) ≡ chars text =
        ground arith in
      rw (c, d, advanced)

  -- The first look at a file matches nothing of what is in it.
  pump-first :
      (inode : ℕ) (text : String) (t : Tally)
      → from_start ≡ false
      → pump search from_start (in_place inode text) now (record { handle = none; tally = t })
        ≡ (pumped, record { handle = some (open_at inode (chars text)); tally = t })
  unfolding pump pump_found open_file consume
  pump-first inode text t e =
      let whole : drop_chars (chars text) text ≡ "" =
        ap (drop_chars (chars text)) (sym (append-nil text)) ∙ drop_chars-chars text "" in
      rw e (
        read_on_lem (in_place inode text) (open_at inode (chars text)) t text "" refl whole
          (omega arith))

  -- A call matches what has been appended since the one before, and nothing else.
  pump-append :
      (inode : ℕ) (seen more : String) (t : Tally)
      → pump search from_start
          (in_place inode (seen <> more))
          now
          (record { handle = some (open_at inode (chars seen)); tally = t })
        ≡ (
          pumped,
          record { handle = some (open_at inode (chars (seen <> more))); tally = matched more t },
        )
  unfolding pump pump_found consume
  pump-append inode seen more t =
      let same : (inode == inode) ≡ true = ground arith in
      let kept : ltb (chars (seen <> more)) (chars seen) ≡ false =
        ground (arith, chars-append seen more) in
      rw (same, kept)
        (read_on_lem (in_place inode (seen <> more)) (open_at inode (chars seen)) t (seen <> more)
          more refl (drop_chars-chars seen more) (omega (arith, chars-append seen more)))

  -- A rotation loses no line: a call after it matches first what was appended to the old file, and then
  -- the new file from its start.
  pub pump-rotated :
      (old new : ℕ) (seen more text : String) (t : Tally)
      → old ≢ new
      → pump search from_start
          (after_rotation old new (seen <> more) text)
          now
          (record { handle = some (open_at old (chars seen)); tally = t })
        ≡ (
          pumped,
          record {
            handle = some (open_at new (chars text));
            tally = matched text (matched more t);
          },
        )
  unfolding pump pump_found open_file consume
  pump-rotated old new seen more text t n =
      let disk = after_rotation old new (seen <> more) text in
      let differ : (old == new) ≡ false = ground arith in
      let differ' : (new == old) ≡ false = ground arith in
      let same : (old == old) ≡ true = ground arith in
      rw (differ, same, drop_chars-chars seen more)
        (read_on_lem disk (open_at new 0) (matched more t) text text (rw differ') refl
          (omega arith))

  -- Calls between which the file grows by the given texts.
  abbrev pub follow : ℕ → String → List String → Watch → Watch
  follow inode seen [] w = w
  follow inode seen (more ∷ rest) w =
      follow inode (seen <> more) rest
        (pump search from_start (in_place inode (seen <> more)) now w).1

  abbrev pub matched_all : List String → Tally → Tally
  matched_all [] t = t
  matched_all (more ∷ rest) t = matched_all rest (matched more t)

  tally-follow :
      (inode : ℕ) (pieces : List String) (seen : String) (t : Tally)
      → (follow inode seen pieces
          (record { handle = some (open_at inode (chars seen)); tally = t })).tally
        ≡ matched_all pieces t
  tally-follow inode [] seen t = refl
  tally-follow inode (more ∷ rest) seen t =
      ap (λ r. (follow inode (seen <> more) rest r.1).tally) (pump-append inode seen more t)
      ∙ tally-follow inode rest (seen <> more) (matched more t)

  -- From the first look on, and while the file only grows: what was in it before is not matched, and
  -- each text that is appended is matched exactly once, by the call that follows it.
  pub tail_exact :
      (inode : ℕ) (backlog : String) (pieces : List String) (t : Tally)
      → from_start ≡ false
      → (follow inode backlog pieces
          (pump search from_start
            (in_place inode backlog)
            now
            (record { handle = none; tally = t })).1).tally
        ≡ matched_all pieces t
  tail_exact inode backlog pieces t e =
      ap (λ r. (follow inode backlog pieces r.1).tally) (pump-first inode backlog t e)
      ∙ tally-follow inode pieces backlog t
