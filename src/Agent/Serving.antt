-- ===== src/Agent/Serving.antt =====
-- agent/gpu_health_agent/main.py: what `Handler` answers to a path, and the loop of `main` with the
-- collector and the publisher that it drives. A turn of the loop is given with what the clock showed.
pub mod Turns
use gpu_node_health.Base.{
  String, Bool, not, ℕ, ◌+◌, ◌*◌, ◌&&◌, ◌||◌, if◌then◌else◌, ◌=s=◌, Option, none, some, List, [],
  ◌∷◌, ◌++◌,
}
use gpu_node_health.Base.Int.{ℤ, pos, negsuc, ◌-ℤ◌, ltb_ℤ, Instant, seconds}
use gpu_node_health.Agent.Census.{max_ℤ}
use gpu_node_health.Agent.Config.{Config}
use gpu_node_health.Agent.Conditions.Infos.{Evaluator}
use gpu_node_health.Agent.Collector.{Readings, CollectorState, Collector, collect_once}
use gpu_node_health.Agent.Publisher.{Published, Publisher, publish, silent}
use gpu_node_health.Agent.Collector
use gpu_node_health.Base.Strip.{split_at}

-- What is sent for `/metrics` and `/debug` is the state itself, as `render` and the JSON library print it.
pub data Body : Type 0 where
  plain : String → Body
  metrics dump : CollectorState → Body

pub record Response : Type 0 where
  pub status : ℕ
  pub body : Body

-- Four times a number of seconds.
abbrev times_four : ℤ → ℤ
times_four (pos n) = pos (n * 4)
times_four (negsuc n) = negsuc (n * 4 + 3)

-- A pass has succeeded, and not longer ago than a minute or four intervals.
unfoldable pub is_fresh : Config → Instant → Instant → Bool
is_fresh c now collected_at =
    ltb_ℤ (pos 0) collected_at
    && ltb_ℤ (now -ℤ collected_at)
        (seconds (max_ℤ (pos 60) (times_four c.collect_interval_seconds)))

-- `self.path.split("?", 1)[0]`
abbrev pub before_query : List String → String
before_query [] = ""
before_query (path ∷ rest) = path

-- `do_GET`
unfoldable pub do_get : Config → CollectorState → Instant → String → Response
unfolding is_fresh split_at
do_get c state now path =
    let path' = before_query (split_at "?" path) in
    if path' =s= "/metrics"
    then record { status = 200; body = metrics state }
    else if (path' =s= "/healthz") || (path' =s= "/readyz")
    then if is_fresh c now state.collected_at
      then record { status = 200; body = plain "ok\n" }
      else record { status = 503; body = plain "stale\n" }
    else if path' =s= "/debug"
    then record { status = 200; body = dump state }
    else record { status = 404; body = plain "not found\n" }

-- An attempt to publish: when its time had come, and the time that was noted after it.
pub record Attempt : Type 0 where
  pub due_at : Instant
  pub noted_at : Instant

-- The local variables of `main`; the attempts, newest first, and what was sent are a record of the past.
pub record Agent : Type 0 where
  pub collector : Collector
  pub publisher : Option Publisher
  pub last_publish : Instant
  pub attempts : List Attempt
  pub sent : List (List Published)

-- `publisher` is there where NODE_CONDITIONS_ENABLED is set.
unfoldable pub start : Config → Agent
start c = record {
  collector = Collector.idle;
  publisher = if c.node_conditions_enabled then some silent else none;
  last_publish = pos 0;
  attempts = [];
  sent = [];
}

-- What the clock and the sources give in a turn; `stamp` is the time stamp that `publish` writes.
pub record Turn : Type 0 where
  pub now : Instant
  pub readings : Option Readings
  pub checked : Instant
  pub stamp : String
  pub noted : Instant

abbrev pub add_sent : Option (List Published) → List (List Published) → List (List Published)
add_sent none sent = sent
add_sent (some conditions) sent = sent ++ conditions ∷ []

-- `publisher.publish()` and the time that is noted after it.
unfoldable pub publish_turn : Turn → Publisher → Agent → Agent
unfolding publish
publish_turn t p a =
    let (conditions, p') = publish t.stamp a.collector.state.condition_detail p in
    record a {
      publisher = some p';
      last_publish = t.noted;
      attempts = record { due_at = t.checked; noted_at = t.noted } ∷ a.attempts;
      sent = add_sent conditions a.sent;
    }

abbrev pub maybe_publish : Config → Turn → Option Publisher → Agent → Agent
maybe_publish c t none a = a
maybe_publish c t (some p) a =
    if not (ltb_ℤ (t.checked -ℤ a.last_publish) (seconds c.node_condition_interval_seconds))
    then publish_turn t p a
    else a

-- One turn of the loop.
unfoldable pub turn : Evaluator → Config → Turn → Agent → Agent
unfolding collect_once publish_turn
turn e c t a =
    let collected : Agent = record a { collector = collect_once e t.now t.readings a.collector } in
    maybe_publish c t a.publisher collected

unfoldable pub turns : Evaluator → Config → List Turn → Agent → Agent
unfolding turn
turns e c [] a = a
turns e c (t ∷ ts) a = turns e c ts (turn e c t a)
