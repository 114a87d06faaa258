-- ===== src/Agent/Serving/Turns.antt =====
-- When the loop of agent/gpu_health_agent/main.py publishes.
use gpu_node_health.Base.{
  ◌≡◌, refl, ap, ◌∙◌, false, List, [], ◌∷◌, none, some, Bool-cases, inl, inr, Option,
}
use gpu_node_health.Base.Int.{◌-ℤ◌, ◌≤ℤ◌, ltb_ℤ, ltb_ℤ→ge, Instant, seconds}
use gpu_node_health.Base.Env.{Env, bool_setting}
use gpu_node_health.Agent.Config.{Config, config}
use gpu_node_health.Agent.Conditions.Infos.{Evaluator}
use gpu_node_health.Agent.Collector.{collect_once}
use gpu_node_health.Agent.Publisher.{Publisher}
use gpu_node_health.Agent.Serving.{
  Agent, Attempt, Turn, start, turn, turns, publish_turn, maybe_publish,
}

module _ (c : Config) where
  -- Each attempt came at least the interval after the time that the one before it noted.
  abbrev pub Spaced : List Attempt → Type 0
  Spaced [] = Unit
  Spaced (a ∷ []) = Unit
  Spaced (a ∷ b ∷ rest) =
      (seconds c.node_condition_interval_seconds ≤ℤ a.due_at -ℤ b.noted_at) × Spaced (b ∷ rest)

  -- The noted time of the newest attempt is `last_publish`.
  abbrev Noted : Instant → List Attempt → Type 0
  Noted last [] = Unit
  Noted last (a ∷ rest) = last ≡ a.noted_at

  abbrev IsSound : Agent → Type 0
  IsSound a = Noted a.last_publish a.attempts × Spaced a.attempts

  add-Spaced :
      (t : Turn) (last : Instant) (past : List Attempt)
      → Noted last past
      → Spaced past
      → ltb_ℤ (t.checked -ℤ last) (seconds c.node_condition_interval_seconds) ≡ false
      → Spaced (record { due_at = t.checked; noted_at = t.noted } ∷ past)
  add-Spaced t last [] n s h = tt
  add-Spaced t last (a ∷ past) n s h = (
    ltb_ℤ→ge (t.checked -ℤ a.noted_at) (seconds c.node_condition_interval_seconds) (rw n at h),
    s,
  )

  maybe_publish-IsSound :
      (t : Turn) (p : Option Publisher) (a : Agent) → IsSound a → IsSound (maybe_publish c t p a)
  unfolding publish_turn
  maybe_publish-IsSound t none a s = s
  maybe_publish-IsSound t (some p) a (n, s) =
      elim (Bool-cases
        (ltb_ℤ (t.checked -ℤ a.last_publish) (seconds c.node_condition_interval_seconds))) [
          | inl early ↦ rw early (n, s)
          | inr due ↦ rw due (refl, add-Spaced t a.last_publish a.attempts n s due)
        ]

  turns-IsSound :
      (e : Evaluator) (ts : List Turn) (a : Agent) → IsSound a → IsSound (turns e c ts a)
  unfolding turns
  turns-IsSound e [] a s = s
  turns-IsSound e (t ∷ ts) a s =
      turns-IsSound e ts (turn e c t a) (unfold turn in maybe_publish-IsSound t a.publisher _ s)

  -- Over any turns of the loop, whatever the clock shows, an attempt to publish comes only when at least
  -- NODE_CONDITION_INTERVAL_SECONDS have passed since the time that the attempt before it noted.
  pub turns-Spaced : (e : Evaluator) (ts : List Turn) → Spaced (turns e c ts (start c)).attempts
  turns-Spaced e ts = (turns-IsSound e ts (start c) (unfold start in (tt, tt))).1

  no_publisher :
      (t : Turn) (p : Option Publisher) (a : Agent) → p ≡ none → maybe_publish c t p a ≡ a
  no_publisher t none a h = refl
  no_publisher t (some p) a h = cc

  turns_silent :
      (e : Evaluator) (ts : List Turn) (a : Agent)
      → a.publisher ≡ none
      → (turns e c ts a).sent ≡ a.sent
  unfolding turns turn
  turns_silent e [] a h = refl
  turns_silent e (t ∷ ts) a h =
      let collected : Agent = record a {
        collector = collect_once e t.now t.readings a.collector;
      } in
      let kept = no_publisher t a.publisher collected h in
      turns_silent e ts (maybe_publish c t a.publisher collected) (ap (λ b. b.publisher) kept ∙ h)
      ∙ ap (λ b. b.sent) kept

-- If NODE_CONDITIONS_ENABLED is not set, or its text, stripped and in lower case, is none of 1, true, yes
-- and on, then the agent never sends a condition, over any turns of its loop.
pub observer_sends_nothing :
    (env : Env) (e : Evaluator) (ts : List Turn)
    → bool_setting env "NODE_CONDITIONS_ENABLED" false ≡ false
    → (turns e (config env) ts (start (config env))).sent ≡ []
unfolding start
observer_sends_nothing env e ts h =
    turns_silent (config env) e ts (start (config env)) (unfold config in rw h refl)
