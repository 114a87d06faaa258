-- ===== src/Agent/Endpoint/Local.antt =====
-- Which exporter agent/gpu_health_agent/signals/exporter.py scrapes.
use gpu_node_health.Base.{
  String, ◌≡◌, refl, ◌∙◌, inl, inr, Bool, true, false, Option, none, some, List, [], ◌∷◌, In,
  Bool-cases, Option-cases, arith,
}
use gpu_node_health.Agent.Endpoint.{
  Endpoint, Slices, Target, url_of, is_on, is_ready, first_address, from_endpoint, from_slice,
  resolve, Cache, url, scrape_at, scrape,
}

-- The address is one of a ready endpoint on the agent's node.
pub record Fits (t : Target) (ep : Endpoint) (u : String) : Type 0 where
  pub addr : String
  pub on_node : is_on t.node ep.node_name ≡ true
  pub ready : is_ready ep.ready ≡ true
  pub has_addr : In addr ep.addresses
  pub is_url : u ≡ url_of t addr

abbrev pub FitsIn : Target → List Endpoint → String → Type 0
FitsIn t slice u = (ep : Endpoint) × In ep slice × Fits t ep u

-- The endpoint stands in one of the slices.
abbrev pub Local : Target → Slices → String → Type 0
Local t slices u = (slice : List Endpoint) × In slice slices × FitsIn t slice u

first_address_lem :
    (t : Target) (addrs : List String) (u : String)
    → first_address t addrs ≡ some u
    → (addr : String) × In addr addrs × (u ≡ url_of t addr)
first_address_lem t [] u e = let absurd : ⊥ = cc in elim absurd [ ]
first_address_lem t (a ∷ addrs) u e = (a, inl refl, cc)

Fits-from_endpoint :
    (t : Target) (ep : Endpoint) (u : String) → from_endpoint t ep ≡ some u → Fits t ep u
unfolding from_endpoint
Fits-from_endpoint t ep u e = elim (Bool-cases (is_on t.node ep.node_name)) [
  | inl here ↦ elim (Bool-cases (is_ready ep.ready)) [
    | inl ready ↦
        let (addr, m, q) = first_address_lem t ep.addresses u (rw (here, ready) at e) in
        record { addr = addr; on_node = here; ready = ready; has_addr = m; is_url = q }
    | inr unready ↦ let absurd : ⊥ = ground (arith, e, here, unready) in elim absurd [ ]
  ]
  | inr away ↦ let absurd : ⊥ = ground (arith, e, away) in elim absurd [ ]
]

Fits-from_slice :
    (t : Target) (slice : List Endpoint) (u : String)
    → from_slice t slice ≡ some u
    → FitsIn t slice u
unfolding from_slice
Fits-from_slice t [] u e = let absurd : ⊥ = cc in elim absurd [ ]
Fits-from_slice t (ep ∷ eps) u e = elim (Option-cases (from_endpoint t ep)) [
  | inl missed ↦ let (ep', m, f) = Fits-from_slice t eps u (rw missed at e) in (ep', inr m, f)
  | inr (v, found) ↦ (ep, inl refl, Fits-from_endpoint t ep u (found ∙ (rw found at e)))
]

-- A resolved URL is always one of a ready endpoint on the agent's own node, never of a neighbour.
pub Local-resolve :
    (t : Target) (slices : Slices) (u : String) → resolve t slices ≡ some u → Local t slices u
unfolding resolve
Local-resolve t [] u e = let absurd : ⊥ = cc in elim absurd [ ]
Local-resolve t (sl ∷ sls) u e = elim (Option-cases (from_slice t sl)) [
  | inl missed ↦ let (sl', m, f) = Local-resolve t sls u (rw missed at e) in (sl', inr m, f)
  | inr (v, found) ↦ (sl, inl refl, Fits-from_slice t sl u (found ∙ (rw found at e)))
]

scrape_at_lem :
    (answers : String → Bool) (o : Option String) (cache : Cache)
    → (scrape_at answers o cache).0.reachable ≡ false
    → (scrape_at answers o cache).1 ≡ none
scrape_at_lem answers none cache e = refl
scrape_at_lem answers (some u) cache e = ground arith

-- The probe heals by itself: whatever the cache was, a scrape that fails for any reason is followed by one
-- that looks the exporter up again, and that reaches it if the slices by then have a ready endpoint on the
-- node whose address answers.
pub scrape_heals :
    (t : Target) (slices : Option Slices) (answers answers' : String → Bool) (cache : Cache)
    (now_listed : Slices) (u : String)
    → (scrape t slices answers cache).0.reachable ≡ false
    → resolve t now_listed ≡ some u
    → answers' u ≡ true
    → scrape t (some now_listed) answers' (scrape t slices answers cache).1
      ≡ (record { address = u; reachable = true }, some u)
unfolding scrape url
scrape_heals t slices answers answers' cache now_listed u failed r a =
    let emptied : (scrape t slices answers cache).1 ≡ none = scrape_at_lem answers _ _ failed in
    rw (emptied, r, a)
