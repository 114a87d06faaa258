-- ===== src/Guard/Policy/Trigger.antt =====
-- `trigger_level` of guard/gpu_node_guard/policy.py: what stands behind a level.
use gpu_node_health.Base.{
  String, ◌≡◌, refl, ◌⊎◌, inl, inr, true, false, Option, some, List, [], ◌∷◌, arith, In,
  Option-cases,
}
use gpu_node_health.Base.Int.{ℤ, ◌-ℤ◌, ◌≤ℤ◌, ltb_ℤ→ge, Instant, seconds}
use gpu_node_health.Base.Dict.{Dict, get}
use gpu_node_health.Guard.Policy.Types.{
  Condition, Node, Level, gpu_unrecoverable, gpu_workqueue_stalled, gpu_engine_timeout,
}
use gpu_node_health.Guard.Policy.{
  condition_index, is_true, first_true, is_cordon_level, mark_age, trigger_level,
}

-- The types whose conditions may take a node out of service.
abbrev pub cordon_types : List String
cordon_types = gpu_unrecoverable ∷ gpu_workqueue_stalled ∷ gpu_engine_timeout ∷ []

abbrev pub l3_types : List String
l3_types = gpu_unrecoverable ∷ gpu_workqueue_stalled ∷ []

abbrev pub l2_types : List String
l2_types = gpu_engine_timeout ∷ []

-- The condition of type `t` is true, and has been for the minimum age at the least.
pub record Held (parse_time : Option String → Option Instant) (now : Instant) (min_age : ℤ)
    (node : Node) (t : String) : Type 0 where
  pub cond : Condition
  pub present : get t (condition_index node) ≡ some cond
  pub holds : is_true (some cond) ≡ true
  pub since : Instant
  pub parsed : parse_time cond.last_transition_time ≡ some since
  pub old_enough : seconds min_age ≤ℤ now -ℤ since

first_true-cons :
    (index : Dict Condition) (t : String) (types : List String) (cond : Condition)
    → first_true index (t ∷ types) ≡ some cond
    → (get t index ≡ some cond) × (is_true (some cond) ≡ true)
      ⊎ (first_true index types ≡ some cond)
unfolding first_true
first_true-cons index t types cond e = ground arith

pub first_true_lem :
    (index : Dict Condition) (types : List String) (cond : Condition)
    → first_true index types ≡ some cond
    → (t : String) × In t types × (get t index ≡ some cond) × (is_true (some cond) ≡ true)
first_true_lem index [] cond e = absurd (unfold first_true in cc)
first_true_lem index (t ∷ types) cond e = elim (first_true-cons index t types cond e) [
  | inl (g, h) ↦ (t, inl refl, g, h)
  | inr later ↦ let (u, m, g, h) = first_true_lem index types cond later in (u, inr m, g, h)
]

module _ (parse_time : Option String → Option Instant) (now : Instant) (min_age : ℤ) where
  -- A condition that stays unmarked has a time stamp, and the age.
  pub mark_age_lem :
      (cond : Condition)
      → (mark_age parse_time now min_age cond).too_young ≡ false
      → (since : Instant) × (parse_time cond.last_transition_time ≡ some since)
        × (seconds min_age ≤ℤ now -ℤ since)
  unfolding mark_age
  mark_age_lem cond e = elim (Option-cases (parse_time cond.last_transition_time)) [
    | inl absent ↦ ground arith
    | inr (since, parsed) ↦
        (since, parsed, ground (arith, ltb_ℤ→ge (now -ℤ since) (seconds min_age)))
  ]

  cordon_rule :
      (node : Node) (types : List String) (cond : Condition)
      → first_true (condition_index node) types ≡ some cond
      → (mark_age parse_time now min_age cond).too_young ≡ false
      → (t : String) × In t types × Held parse_time now min_age node t
  cordon_rule node types cond e young =
      let (t, m, g, h) = first_true_lem (condition_index node) types cond e in
      let (since, p, o) = mark_age_lem cond young in
      (
        t,
        m,
        record { cond = cond; present = g; holds = h; since = since; parsed = p; old_enough = o },
      )

  -- Behind a level that cordons stands a condition of a type that cordons, held for the age.
  pub trigger_level-Held :
      (node : Node) (level : Level) (cond : Condition)
      → trigger_level parse_time now node min_age ≡ some (level, cond)
      → is_cordon_level level ≡ true
      → cond.too_young ≡ false
      → (t : String) × In t cordon_types × Held parse_time now min_age node t
  unfolding trigger_level is_cordon_level
  trigger_level-Held node level cond e c young =
      elim (Option-cases (first_true (condition_index node) l3_types)) [
        | inr (worst, f) ↦
            let (t, m, h) = cordon_rule node l3_types worst f (ground arith) in
            (
              t,
              elim m [
                | inl p ↦ inl p
                | inr n ↦ inr (inl (elim n [ inl q ↦ q | inr x ↦ elim x [ ] ]))
              ],
              h,
            )
        | inl calm ↦ elim (Option-cases (first_true (condition_index node) l2_types)) [
          | inr (worst, f) ↦
              let (t, m, h) = cordon_rule node l2_types worst f (ground arith) in
              (t, inr (inr m), h)
          | inl calmer ↦ absurd (ground arith)
        ]
      ]
