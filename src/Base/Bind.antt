-- ===== src/Base/Bind.antt =====
-- The chain of computations that may give no value.
use gpu_node_health.Base.{Option, none, some}

infixl 5 ◌>>=◌
abbrev pub ◌>>=◌ : {A B : Type 0} → Option A → (A → Option B) → Option B
none >>= f = none
some a >>= f = f a
