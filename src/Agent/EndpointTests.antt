-- ===== src/Agent/EndpointTests.antt =====
-- The exporter of one node among two, and the theorems on it.
use gpu_node_health.Base.{String, ◌≡◌, refl, Bool, true, false, none, some, [], ◌∷◌}
use gpu_node_health.Base.Int.{pos}
use gpu_node_health.Agent.Endpoint.{
  Endpoint, Slices, Target, url_of, from_endpoint, from_slice, resolve, url, scrape,
}
use gpu_node_health.Agent.Endpoint.Local.{Local, Local-resolve, scrape_heals}

abbrev target : Target
target = record { node = "n1"; port = pos 5000; path = "/metrics" }

abbrev on : String → String → Endpoint
on node addr = record { node_name = some node; ready = none; addresses = addr ∷ [] }

-- A neighbour, then the pod of this node that is not ready yet, then the one that is.
abbrev slices : Slices
slices =
    (on "n2" "10.0.0.2" ∷ [])
    ∷ (record (on "n1" "10.0.0.8") { ready = some false } ∷ on "n1" "10.0.0.9" ∷ [])
    ∷ []

own_exporter : resolve target slices ≡ some (url_of target "10.0.0.9")
unfolding resolve from_slice from_endpoint
own_exporter = refl

Local-resolve_example : Local target slices (url_of target "10.0.0.9")
Local-resolve_example = Local-resolve target slices (url_of target "10.0.0.9") own_exporter

-- No exporter answers at first.
abbrev silence : String → Bool
silence u = false

abbrev answering : String → Bool
answering u = true

stale_address :
    (scrape target none silence (some "http://10.0.0.7:5000/metrics")).0.reachable ≡ false
unfolding scrape url
stale_address = refl

scrape_heals_example :
    scrape target
      (some slices)
      answering
      (scrape target none silence (some "http://10.0.0.7:5000/metrics")).1
    ≡ (
      record { address = url_of target "10.0.0.9"; reachable = true },
      some (url_of target "10.0.0.9"),
    )
scrape_heals_example =
    scrape_heals target none silence answering (some "http://10.0.0.7:5000/metrics") slices
      (url_of target "10.0.0.9") stale_address own_exporter refl
