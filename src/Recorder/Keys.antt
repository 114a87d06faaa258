-- ===== src/Recorder/Keys.antt =====
-- Which keys of the guard's samples `guard_view` of tools/stress-recorder.py reads, and what it reads.
use text.Mathlib.TextLemmas.{nil-append, cons-append, append_assoc}
use gpu_node_health.Base.{
  String, ◌<>◌, true, false, ◌≡◌, refl, ◌∷◌, some, if◌then◌else◌, arith, ◌=s=◌, Bool-cases, inl,
  inr, ap, sym, ◌∙◌,
}
use gpu_node_health.Base.Text.{is_part}
use gpu_node_health.Base.Strip.{split_at}
use gpu_node_health.Base.Lines.{after_first}
use gpu_node_health.Base.Matching.{
  apart, starts_with-apart, eq-apart, without, split_at_first, starts_with_quoted,
  starts_with-append,
}
use gpu_node_health.Base.Search.{
  absent, is_part-absent, after_first-absent, is_part_here, after_first_here, quoted,
  is_part-quoted, after_first-quoted,
}
use gpu_node_health.Recorder.{View, read_key, label_of, second}
use gpu_node_health.Recorder.Plain.{is_plain, plain_unquoted, plain_unequal}

-- The key of a decision's series from the action, the reason and the level on.
abbrev pub from_condition : String → String
from_condition c = "," <> ("condition=" <> quoted c ("}" <> ""))

abbrev pub from_level : String → String → String
from_level l c = "," <> ("level=" <> quoted l (from_condition c))

abbrev pub from_reason : String → String → String → String
from_reason r l c = "," <> ("reason=" <> quoted r (from_level l c))

abbrev pub from_action : String → String → String → String → String
from_action a r l c = "," <> ("action=" <> quoted a (from_reason r l c))

abbrev pub decision_key : String → String → String → String → String → String
decision_key m a r l c = "gpuguard_decision{" <> ("node=" <> quoted m (from_action a r l c))

-- What `split('"')[1]` gives of a quoted value.
second-quoted : (v r : String) → is_plain v ≡ true → second (split_at "\"" (quoted v r)) ≡ some v
second-quoted v r h =
    let start : split_at "\"" (quoted v r) ≡ "" ∷ split_at "\"" (v <> String.◌∷◌ "\"" r) =
      rw (cons-append, nil-append) (unfold split_at in refl) in
    rw (start, split_at_first "\"" v r (plain_unquoted v h)) refl

-- The pattern starts in none of the names of a decision's key, up to the action.
abbrev PassesAction : String → Type 0
PassesAction w =
    (absent w "gpuguard_decision{" ≡ true)
    × (absent w "node=" ≡ true)
    × (absent w "\"" ≡ true)
    × (absent w "action=" ≡ true)
    × (absent w "," ≡ true)

module _ (m a r l c : String) (pm : is_plain m ≡ true) (pa : is_plain a ≡ true)
    (pr : is_plain r ≡ true) (pl : is_plain l ≡ true) (pc : is_plain c ≡ true) where
  -- The search for a label that is neither the node nor the action comes to the reason.
  after_first-decision :
      (w name : String)
      → (w <> "") ≡ name <> String.◌∷◌ "=" ""
      → without "\"" name ≡ true
      → PassesAction w
      → after_first (w <> "") (decision_key m a r l c)
        ≡ after_first (w <> "") ("reason=" <> quoted r (from_level l c))
  after_first-decision w name shape k (h1, h2, h3, h4, h5) =
      let reason = "reason=" <> quoted r (from_level l c) in
      let value = quoted a ("," <> reason) in
      let action = "action=" <> value in
      let node = quoted m ("," <> action) in
      after_first-absent "gpuguard_decision{" ("node=" <> node) w "" h1
      ∙ (after_first-absent "node=" node w "" h2
          ∙ (after_first-quoted m ("," <> action) w "" name "" shape h3 (plain_unequal m pm) k
              ∙ (after_first-absent "," action w "" h5
                  ∙ (after_first-absent "action=" value w "" h4
                      ∙ (after_first-quoted a ("," <> reason) w "" name "" shape h3
                            (plain_unequal a pa) k
                          ∙ after_first-absent "," reason w "" h5)))))

  reason_read :
      (old : String) → label_of (after_first "reason=" (decision_key m a r l c)) old ≡ some r
  reason_read old =
      let start =
        after_first-decision "reason=" "reason" refl refl (refl, refl, refl, refl, refl) in
      let found = start ∙ after_first_here "r" "eason=" (quoted r (from_level l c)) in
      rw found (second-quoted r (from_level l c) pr)

  level_read :
      (old : String) → label_of (after_first "level=" (decision_key m a r l c)) old ≡ some l
  level_read old =
      let level = "level=" <> quoted l (from_condition c) in
      let found =
        after_first-decision "level=" "level" refl refl (refl, refl, refl, refl, refl)
        ∙ (after_first-absent "reason=" (quoted r ("," <> level)) "level=" "" refl
            ∙ (after_first-quoted r ("," <> level) "level=" "" "level" "" refl refl
                  (plain_unequal r pr) refl
                ∙ (after_first-absent "," level "level=" "" refl
                    ∙ after_first_here "l" "evel=" (quoted l (from_condition c))))) in
      rw found (second-quoted l (from_condition c) pl)

  node_shape : (x : String) → "node=\"" <> x ≡ "node" <> String.◌∷◌ "=" (String.◌∷◌ "\"" x)
  node_shape x =
      let tail : "=\"" <> x ≡ String.◌∷◌ "=" (String.◌∷◌ "\"" x) =
        rw (cons-append, cons-append, nil-append) refl in
      append_assoc "node" "=\"" x ∙ ap (λ t. "node" <> t) tail

  -- The other names of a decision's key hold no node.
  node_nowhere : (x : String) → is_part ("node=\"" <> x) (from_action a r l c) ≡ false
  node_nowhere x =
      let skip = λ (v rest : String) (h : is_plain v ≡ true).
        is_part-quoted v rest "node=\"" x "node" (String.◌∷◌ "\"" x) (node_shape x) refl
          (plain_unequal v h) refl in
      let end : is_part ("node=\"" <> x) "" ≡ false = rw cons-append refl in
      is_part-absent "," ("action=" <> quoted a (from_reason r l c)) "node=\"" x refl
      ∙ (is_part-absent "action=" (quoted a (from_reason r l c)) "node=\"" x refl
          ∙ (skip a (from_reason r l c) pa
              ∙ (is_part-absent "," ("reason=" <> quoted r (from_level l c)) "node=\"" x refl
                  ∙ (is_part-absent "reason=" (quoted r (from_level l c)) "node=\"" x refl
                      ∙ (skip r (from_level l c) pr
                          ∙ (is_part-absent "," ("level=" <> quoted l (from_condition c)) "node=\""
                                x refl
                              ∙ (is_part-absent "level=" (quoted l (from_condition c)) "node=\"" x
                                    refl
                                  ∙ (skip l (from_condition c) pl
                                      ∙ (is_part-absent "," ("condition=" <> quoted c ("}" <> ""))
                                            "node=\"" x refl
                                          ∙ (is_part-absent "condition=" (quoted c ("}" <> ""))
                                                "node=\"" x refl
                                              ∙ (skip c ("}" <> "") pc
                                                  ∙ (is_part-absent "}" "" "node=\"" x refl
                                                      ∙ end))))))))))))

  node_found :
      (n : String)
      → without "\"" n ≡ true
      → is_part ("node=\"" <> (n <> "\"")) (decision_key m a r l c) ≡ (m =s= n)
  node_found n h =
      let rest = from_action a r l c in
      let value = m <> String.◌∷◌ "\"" rest in
      let p = "node=\"" <> (n <> "\"") in
      let joined : is_part p ("node=" <> quoted m rest) ≡ is_part p ("node=\"" <> value) =
        ap (λ t. is_part p t) (sym (append_assoc "node=" "\"" value)) in
      let skipped =
        is_part-quoted m rest "node=\"" (n <> "\"") "node" (String.◌∷◌ "\"" (n <> "\""))
          (node_shape (n <> "\"")) refl (plain_unequal m pm) refl in
      let first = is_part-absent "\"" value "node=\"" (n <> "\"") refl in
      let later : is_part p value ≡ false = sym first ∙ (skipped ∙ node_nowhere (n <> "\"")) in
      let same = starts_with_quoted m n rest (plain_unquoted m pm) h in
      is_part-absent "gpuguard_decision{" ("node=" <> quoted m rest) "node=\"" (n <> "\"") refl
      ∙ (joined
          ∙ (is_part_here "n" "ode=\"" value (n <> "\"") refl ∙ rw (same, later) (ground arith)))

  -- A decision's sample is read if it is the node's, and else passed over.
  pub read_key-decision :
      (n : String) (v : View)
      → without "\"" n ≡ true
      → read_key n (decision_key m a r l c) "1" v
        ≡ some (if m =s= n then record v { reason = r; level = l } else v)
  unfolding read_key
  read_key-decision n v h =
      let rest = "node=" <> quoted m (from_action a r l c) in
      let start = starts_with-append "gpuguard_decision{" rest "gpuguard_decision{" refl in
      let key : String = "gpuguard_decision{" in
      rw
        (
          start,
          node_found n h,
          reason_read v.reason,
          level_read v.level,
          eq-apart key rest "gpuguard_cordons_total" refl,
          eq-apart key rest "gpuguard_healthy_capacity" refl,
          eq-apart key rest "gpuguard_loop_errors_total" refl,
          eq-apart key rest "gpuguard_event_errors_total" refl,
        )
        (elim (Bool-cases (m =s= n)) [ inl e ↦ rw e refl | inr e ↦ rw e refl ])

-- A key of another series with labels is passed over.
pub read_key-other :
    (n key rest value : String) (v : View)
    → apart key "gpuguard_decision{" ≡ true
    → apart key "gpuguard_cordons_total" ≡ true
    → apart key "gpuguard_healthy_capacity" ≡ true
    → apart key "gpuguard_loop_errors_total" ≡ true
    → apart key "gpuguard_event_errors_total" ≡ true
    → read_key n (key <> rest) value v ≡ some v
unfolding read_key
read_key-other n key rest value v h1 h2 h3 h4 h5 =
    rw
      (
        starts_with-apart key rest "gpuguard_decision{" h1,
        eq-apart key rest "gpuguard_cordons_total" h2,
        eq-apart key rest "gpuguard_healthy_capacity" h3,
        eq-apart key rest "gpuguard_loop_errors_total" h4,
        eq-apart key rest "gpuguard_event_errors_total" h5,
      )
      refl
