-- ===== src/Base/Env.antt =====
-- Reading settings from the environment, as guard/gpu_node_guard/config.py and
-- agent/gpu_health_agent/config.py do. The environment is a function, `os.environ.get`.
use gpu_node_health.Base.{String, Bool, Option, none, some, List, ◌∷◌, [], contains, ◌≡◌, refl}
use gpu_node_health.Base.Int.{ℤ}
use gpu_node_health.Base.Dict.{default_to}
use gpu_node_health.Base.Show.{show_ℤ}
use gpu_node_health.Base.Parse.{parse_int, parse_int-show_ℤ}
use gpu_node_health.Base.Strip.{strip, lower, comma_list}

abbrev pub Env : Type 0
Env = String → Option String

-- `os.getenv(name, default)`
abbrev pub getenv : Env → String → String → String
getenv env name default = default_to default (env name)

-- `_int`: a text that is no integer gives the default.
unfoldable pub int_setting : Env → String → ℤ → ℤ
int_setting env name default = default_to default (parse_int (getenv env name (show_ℤ default)))

abbrev pub truth : Bool → Option String → Bool
truth default none = default
truth default (some raw) = contains (lower (strip raw)) ("1" ∷ "true" ∷ "yes" ∷ "on" ∷ [])

-- `_bool`
unfoldable pub bool_setting : Env → String → Bool → Bool
unfolding lower strip
bool_setting env name default = truth default (env name)

-- `_list`
unfoldable pub list_setting : Env → String → String → List String
unfolding comma_list
list_setting env name default = comma_list (getenv env name default)

-- An integer setting that is not set has its default, and one that is set to the print of an integer
-- has that integer.
pub int_setting-unset :
    (env : Env) (name : String) (z : ℤ) → env name ≡ none → int_setting env name z ≡ z
unfolding int_setting
int_setting-unset env name z h = rw (h, parse_int-show_ℤ z) refl

pub int_setting-set :
    (env : Env) (name : String) (z d : ℤ) → env name ≡ some (show_ℤ z) → int_setting env name d ≡ z
unfolding int_setting
int_setting-set env name z d h = rw (h, parse_int-show_ℤ z) refl
