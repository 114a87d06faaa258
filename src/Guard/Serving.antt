-- ===== src/Guard/Serving.antt =====
-- guard/gpu_node_guard/main.py: what `make_handler` answers to a path, from the snapshot of the state.
use gpu_node_health.Base.{String, Bool, ℕ, if◌then◌else◌}
use gpu_node_health.Base.Int.{pos, ◌-ℤ◌, ltb_ℤ, Instant, seconds}
use gpu_node_health.Base.Text.{starts_with}
use gpu_node_health.Guard.World.{GuardConfig, GuardState}
use gpu_node_health.Guard.Metrics.{render}

-- `dump` is the state as JSON, whose text is the JSON library's.
pub data Body : Type 0 where
  plain : String → Body
  dump : GuardState → Body

pub record Response : Type 0 where
  pub status : ℕ
  pub body : Body

-- An evaluation within the last five minutes.
abbrev pub is_fresh : Instant → Instant → Bool
is_fresh now last_loop = ltb_ℤ (now -ℤ last_loop) (seconds (pos 300))

-- `do_GET`
unfoldable pub do_get : GuardConfig → GuardState → Instant → String → Response
unfolding render
do_get cfg state now path =
    if starts_with path "/metrics"
    then record { status = 200; body = plain (render cfg state) }
    else if starts_with path "/healthz"
    then record { status = 200; body = plain "ok\n" }
    else if starts_with path "/readyz"
    then if is_fresh now state.last_loop
      then record { status = 200; body = plain "ok\n" }
      else record { status = 503; body = plain "no recent evaluation\n" }
    else if starts_with path "/debug"
    then record { status = 200; body = dump state }
    else record { status = 404; body = plain "not found\n" }
