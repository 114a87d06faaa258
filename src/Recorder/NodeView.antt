-- ===== src/Recorder/NodeView.antt =====
-- tools/stress-recorder.py: `node_view`, over the Node that kubectl prints; its values as the texts that the
-- row of the recording holds.
use gpu_node_health.Base.{
  String, ◌<>◌, Bool, Option, none, some, List, [], ◌∷◌, ◌=s=◌, if◌then◌else◌,
}
use gpu_node_health.Base.Dict.{Dict, get, put, default_to}
use gpu_node_health.Guard.Policy.Types.{Condition, Node}

abbrev pub cond_prefix : String
cond_prefix = "gpu-health.amd.io/"

-- `CONDITIONS`
abbrev pub columns : List (String × String)
columns =
    ("unrec", "GPUUnrecoverable")
    ∷ ("wq", "GPUWorkqueueStalled")
    ∷ ("eng", "GPUEngineTimeout")
    ∷ ("probe", "GPUProbeFailed")
    ∷ ("stale", "GPUHealthDataStale")
    ∷ []

-- `index`; an entry without a type is under the key None, which is never looked up.
abbrev pub entry : Option String → Condition → Dict Condition → Dict Condition
entry none c index = index
entry (some k) c index = put k c index

unfoldable pub index_of : Dict Condition → List Condition → Dict Condition
index_of index [] = index
index_of index (c ∷ cs) = index_of (entry c.type c index) cs

-- `cond.get("status")` of a condition that may be absent.
abbrev pub status_of : Option Condition → Option String
status_of none = none
status_of (some c) = c.status

abbrev pub since_of : Option Condition → Option String
since_of none = none
since_of (some c) = c.last_transition_time

-- `{"True": "T", "False": "F"}.get(status, "?")`
abbrev pub letter : Option String → String
letter none = "?"
letter (some s) = if s =s= "True" then "T" else if s =s= "False" then "F" else "?"

-- The loop over `CONDITIONS`.
abbrev pub add_columns : List (String × String) → Dict Condition → Dict String → Dict String
add_columns [] index view = view
add_columns ((short, full) ∷ rest) index view =
    let cond = get (cond_prefix <> full) index in
    add_columns rest index (
      put ("api_" <> (short <> "_since")) (default_to "" (since_of cond))
        (put ("api_" <> short) (letter (status_of cond)) view))

abbrev pub flag : Option Bool → String
flag none = "0"
flag (some b) = if b then "1" else "0"

-- Without an answer of kubectl there is only the flag.
unfoldable pub node_view : Option Node → Dict String
unfolding index_of
node_view none = ("api_ok", "0") ∷ []
node_view (some node) =
    let index = index_of [] node.conditions in
    add_columns columns index (
      ("api_ok", "1")
      ∷ ("unschedulable", flag node.unschedulable)
      ∷ ("ready", default_to "?" (status_of (get "Ready" index)))
      ∷ [])
