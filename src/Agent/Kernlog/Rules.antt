-- ===== src/Agent/Kernlog/Rules.antt =====
-- Which rule of agent/gpu_health_agent/signals/kernlog.py counts a line.
use gpu_node_health.Base.{
  ℕ, suc, ◌+◌, String, ◌≡◌, refl, ap, ◌∙◌, Bool, true, false, Option, none, some, List, [], ◌∷◌,
  arith, ◌=s=◌, Bool-cases, inl, inr, if◌then◌else◌,
}
use gpu_node_health.Base.Int.{Instant}
use gpu_node_health.Base.Dict.{Dict, get, put, get-put, default_to}
use gpu_node_health.Agent.Kernlog.{Severity, rules, Tally, match_rules, match_line, match_lines}

-- The sum of all counters.
abbrev pub total : Dict ℕ → ℕ
total [] = 0
total ((name, n) ∷ rest) = n + total rest

total-put :
    (name : String) (counts : Dict ℕ)
    → total (put name (suc (default_to 0 (get name counts))) counts) ≡ suc (total counts)
unfolding get put
total-put name [] = omega arith
total-put name ((j, n) ∷ rest) = ground (arith, total-put name rest)

module _ (search : String → String → Bool) (now : Instant) where
  -- The first rule of a list that hits the line.
  abbrev pub first_hit : List (String × Severity) → String → Option String
  first_hit [] line = none
  first_hit ((name, sev) ∷ rest) line = if search name line then some name else first_hit rest line

  abbrev pub counted : Option String → Tally → Tally
  counted none t = t
  counted (some name) t = record t {
    counts = put name (suc (default_to 0 (get name t.counts))) t.counts;
  }

  counts-match_rules :
      (rs : List (String × Severity)) (line : String) (t : Tally)
      → (match_rules search now rs line t).counts ≡ (counted (first_hit rs line) t).counts
  unfolding match_rules
  counts-match_rules [] line t = refl
  counts-match_rules ((name, sev) ∷ rest) line t = elim (Bool-cases (search name line)) [
    | inl e ↦ rw e
    | inr e ↦ rw e (counts-match_rules rest line t)
  ]

  -- The lines that some rule hits.
  abbrev is_hit : Option String → ℕ
  is_hit none = 0
  is_hit (some name) = 1

  abbrev pub hit_lines : List String → ℕ
  hit_lines [] = 0
  hit_lines (line ∷ lines) = is_hit (first_hit rules line) + hit_lines lines

  total-counted :
      (o : Option String) (t : Tally) → total (counted o t).counts ≡ total t.counts + is_hit o
  total-counted none t = omega arith
  total-counted (some name) t = omega (arith, total-put name t.counts)

  -- Each line that some rule hits is counted once, by one rule, and the other lines are not counted:
  -- the counters together grow by the number of the lines that are hit.
  pub total-match_lines :
      (lines : List String) (t : Tally)
      → total (match_lines search now lines t).counts ≡ total t.counts + hit_lines lines
  unfolding match_lines match_line
  total-match_lines [] t = omega arith
  total-match_lines (line ∷ lines) t =
      total-match_lines lines (match_rules search now rules line t)
      ∙ omega (
        arith,
        ap total (counts-match_rules rules line t),
        total-counted (first_hit rules line) t,
      )

  -- A line that reports a blocked GPU worker is never counted as the block of another task, although
  -- both patterns hit it.
  pub workqueue_before_other :
      (line : String) (t : Tally)
      → search "gpu_workqueue_blocked" line ≡ true
      → get "other_task_blocked" (match_line search now line t).counts
        ≡ get "other_task_blocked" t.counts
  unfolding match_line match_rules
  workqueue_before_other line t h =
      let kept : (name : String)
          → (name =s= "other_task_blocked") ≡ false
          → get "other_task_blocked" (counted (some name) t).counts
            ≡ get "other_task_blocked" t.counts =
        λ name e. get-put name "other_task_blocked" _ t.counts ∙ rw e in
      rw h (elim (Bool-cases (search "mes_unrecoverable" line)) [
        | inl a ↦ rw a (kept "mes_unrecoverable" refl)
        | inr a ↦ elim (Bool-cases (search "gpu_reset_begin" line)) [
          | inl b ↦ rw (a, b) (kept "gpu_reset_begin" refl)
          | inr b ↦ elim (Bool-cases (search "vram_lost" line)) [
            | inl c ↦ rw (a, b, c) (kept "vram_lost" refl)
            | inr c ↦ rw (a, b, c) (kept "gpu_workqueue_blocked" refl)
          ]
        ]
      ])
