-- ===== src/Agent/Endpoint.antt =====
-- agent/gpu_health_agent/signals/exporter.py: `NodeLocalEndpointResolver`, and how `ExporterProbe.collect`
-- finds and scrapes the exporter of its node. The answers of the API server and of the exporter are
-- arguments; the parse of the samples is left out.
pub mod Local
use gpu_node_health.Base.{
  String, ◌<>◌, Bool, true, false, not, Option, none, some, List, [], ◌∷◌, ◌=s=◌, if◌then◌else◌,
}
use gpu_node_health.Base.Int.{ℤ}
use gpu_node_health.Base.Show.{show_ℤ}

-- An endpoint of a slice; a missing `ready` counts as ready.
pub record Endpoint : Type 0 where
  pub node_name : Option String
  pub ready : Option Bool
  pub addresses : List String

abbrev pub Slices : Type 0
Slices = List (List Endpoint)

pub record Target : Type 0 where
  pub node : String
  pub port : ℤ
  pub path : String

unfoldable pub url_of : Target → String → String
url_of t addr = "http://" <> (addr <> (":" <> (show_ℤ t.port <> t.path)))

abbrev pub is_on : String → Option String → Bool
is_on node none = false
is_on node (some n) = n =s= node

abbrev pub is_ready : Option Bool → Bool
is_ready none = true
is_ready (some b) = b

abbrev pub first_address : Target → List String → Option String
first_address t [] = none
first_address t (addr ∷ addrs) = some (url_of t addr)

abbrev pub or_next : Option String → Option String → Option String
or_next none next = next
or_next (some u) next = some u

-- The three loops of `url`; `none` is the LookupError.
unfoldable pub from_endpoint : Target → Endpoint → Option String
from_endpoint t ep =
    if not (is_on t.node ep.node_name)
    then none
    else if not (is_ready ep.ready)
    then none
    else first_address t ep.addresses

unfoldable pub from_slice : Target → List Endpoint → Option String
unfolding from_endpoint
from_slice t [] = none
from_slice t (ep ∷ eps) = or_next (from_endpoint t ep) (from_slice t eps)

unfoldable pub resolve : Target → Slices → Option String
unfolding from_slice
resolve t [] = none
resolve t (sl ∷ sls) = or_next (from_slice t sl) (resolve t sls)

-- `_cached`
abbrev pub Cache : Type 0
Cache = Option String

abbrev pub resolve_answer : Target → Option Slices → Option String
resolve_answer t none = none
resolve_answer t (some slices) = resolve t slices

-- `url` and the cache after it. Without slices the API server has not answered, which raises too.
unfoldable pub url : Target → Option Slices → Cache → Option String × Cache
unfolding resolve
url t slices (some u) = (some u, some u)
url t slices none = let found = resolve_answer t slices in (found, found)

-- What a scrape comes to: the address, and whether it answered.
pub record Scrape : Type 0 where
  pub address : String
  pub reachable : Bool

-- After the address is known or not: a failure empties the cache.
abbrev pub scrape_at : (String → Bool) → Option String → Cache → Scrape × Cache
scrape_at answers none cache = (record { address = ""; reachable = false }, none)
scrape_at answers (some u) cache =
    if answers u
    then (record { address = u; reachable = true }, cache)
    else (record { address = u; reachable = false }, none)

-- The part of `collect` up to the body, of a probe that has no fixed URL.
unfoldable pub scrape : Target → Option Slices → (String → Bool) → Cache → Scrape × Cache
unfolding url
scrape t slices answers cache =
    let (found, cache') = url t slices cache in scrape_at answers found cache'
