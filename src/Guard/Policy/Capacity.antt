-- ===== src/Guard/Policy/Capacity.antt =====
-- The capacity that is left when the cordons of one call of guard/gpu_node_guard/policy.py,
-- `decide`, have been carried out.
use gpu_node_health.Base.{
  ◌≤◌, String, ◌≡◌, refl, sym, ap, ◌∙◌, ◌⊎◌, inl, inr, true, false, Option, some, List, [], ◌∷◌,
  map, arith, All, subst, In, contains, contains→In, if◌then◌else◌, Bool-cases, eq_iff,
}
use gpu_node_health.Base.Int.{ℤ, pos, ◌≤ℤ◌, Instant}
use gpu_node_health.Base.Dict.{get}
use gpu_node_health.Guard.Policy.Trigger.{Held, cordon_types}
use gpu_node_health.Guard.Policy.Types.{Node, Action, cordon, noop, Decision, PolicyConfig}
use gpu_node_health.Guard.Policy.Guardrails.{decide-Warranted}
use gpu_node_health.Guard.Policy.{
  text_or_empty, condition_index, first_true, ready, schedulable, in_cordon_levels, is_spare,
  trigger_level, healthy_capacity, decide,
}

-- The names that the cordons of a list of decisions are about.
unfoldable pub cordoned_names : List Decision → List String
cordoned_names [] = []
cordoned_names (d ∷ ds) =
    let rest = cordoned_names ds in elim d.action [ cordon ↦ d.node ∷ rest | noop ↦ rest ]

-- The effect of `K8sClient.cordon` for each of the names.
abbrev pub cordon_node : List String → Node → Node
cordon_node names node =
    if contains (text_or_empty node.name) names
    then record node { unschedulable = some true }
    else node

-- A name stands for one node of the list.
abbrev pub NamesIdentify : List Node → Type 0
NamesIdentify nodes =
    (m n : Node) → In m nodes → In n nodes → text_or_empty m.name ≡ text_or_empty n.name → m ≡ n

-- No two nodes of the list have one name.
abbrev pub Distinct : List Node → Type 0
Distinct [] = Unit
Distinct (n ∷ ns) =
    (contains (text_or_empty n.name) (map (λ k. text_or_empty k.name) ns) ≡ false) × Distinct ns

contains-name :
    (n : Node) (ns : List Node) (name : String)
    → In n ns
    → name ≡ text_or_empty n.name
    → contains name (map (λ k. text_or_empty k.name) ns) ≡ true
contains-name n [] name m e = elim m [ ]
contains-name n (k ∷ ks) name (inl p) e =
    rw ((eq_iff name (text_or_empty k.name)).1 (e ∙ ap (λ x. text_or_empty x.name) p))
contains-name n (k ∷ ks) name (inr m) e = ground (arith, contains-name n ks name m e)

pub Distinct→NamesIdentify : (nodes : List Node) → Distinct nodes → NamesIdentify nodes
Distinct→NamesIdentify [] d m n i j e = elim i [ ]
Distinct→NamesIdentify (x ∷ xs) d m n (inl a) (inl b) e = a ∙ sym b
Distinct→NamesIdentify (x ∷ xs) d m n (inl a) (inr j) e =
    cc (
      d.0,
      contains-name n xs (text_or_empty x.name) j (ap (λ k. text_or_empty k.name) (sym a) ∙ e),
    )
Distinct→NamesIdentify (x ∷ xs) d m n (inr i) (inl b) e = cc (
  d.0,
  contains-name m xs (text_or_empty x.name) i (ap (λ k. text_or_empty k.name) (sym b) ∙ sym e),
)
Distinct→NamesIdentify (x ∷ xs) d m n (inr i) (inr j) e = Distinct→NamesIdentify xs d.1 m n i j e

cordoned_names-cons :
    (d : Decision) (ds : List Decision) (name : String)
    → In name (cordoned_names (d ∷ ds))
    → ((d.action ≡ cordon) × (d.node ≡ name)) ⊎ In name (cordoned_names ds)
unfolding cordoned_names
cordoned_names-cons d ds name m = split d.action refl m
  where
    split :
        (a : Action)
        → d.action ≡ a
        → In name (elim a [ cordon ↦ d.node ∷ cordoned_names ds | noop ↦ cordoned_names ds ])
        → ((d.action ≡ cordon) × (d.node ≡ name)) ⊎ In name (cordoned_names ds)
    split cordon e (inl n) = inl (e, sym n)
    split cordon e (inr n) = inr n
    split noop e n = inr n

cordoned_names_lem :
    (ds : List Decision) (name : String)
    → In name (cordoned_names ds)
    → (d : Decision) × In d ds × (d.action ≡ cordon) × (d.node ≡ name)
cordoned_names_lem [] name m = absurd (unfold cordoned_names in m)
cordoned_names_lem (d ∷ ds) name m = elim (cordoned_names-cons d ds name m) [
  | inl (c, e) ↦ (d, inl refl, c, e)
  | inr n ↦ let (d', i, c, e) = cordoned_names_lem ds name n in (d', inr i, c, e)
]

module _ (parse_time : Option String → Option Instant) (now : Instant) where
  -- A true condition of a type that cordons puts the node on a level that cordons, held or not.
  Held-trigger_level :
      (min_age : ℤ) (node : Node) (kind : String)
      → In kind cordon_types
      → Held parse_time now min_age node kind
      → in_cordon_levels (trigger_level parse_time now node min_age) ≡ true
  unfolding trigger_level first_true in_cordon_levels
  Held-trigger_level min_age node kind (inl e) h =
      ground (arith, ap (λ k. get k (condition_index node)) e)
  Held-trigger_level min_age node kind (inr (inl e)) h =
      ground (arith, ap (λ k. get k (condition_index node)) e)
  Held-trigger_level min_age node kind (inr (inr (inl e))) h =
      ground (arith, ap (λ k. get k (condition_index node)) e)
  Held-trigger_level min_age node kind (inr (inr (inr x))) h = elim x [ ]

  module _ (min_age : ℤ) (names : List String) where
    -- Cordoning a node on such a level takes nothing from the capacity.
    Unneeded : Node → Type 0
    Unneeded node =
        contains (text_or_empty node.name) names ≡ true
        → in_cordon_levels (trigger_level parse_time now node min_age) ≡ true

    is_spare-cordon_node :
        (node : Node)
        → Unneeded node
        → is_spare parse_time now min_age [] (cordon_node names node)
          ≡ is_spare parse_time now min_age [] node
    unfolding Unneeded is_spare schedulable trigger_level ready condition_index
    is_spare-cordon_node node u = elim (Bool-cases (contains (text_or_empty node.name) names)) [
      | inl e ↦ rw e (ground (arith, u e))
      | inr e ↦ rw e
    ]

    healthy_capacity-cordon_node :
        (nodes : List Node)
        → All Unneeded nodes
        → healthy_capacity parse_time now (map (cordon_node names) nodes) min_age []
          ≡ healthy_capacity parse_time now nodes min_age []
    unfolding healthy_capacity
    healthy_capacity-cordon_node [] u = refl
    healthy_capacity-cordon_node (node ∷ nodes) u =
        rw (is_spare-cordon_node node u.0, healthy_capacity-cordon_node nodes u.1)

  exclude-le :
      (min_age : ℤ) (name : String) (nodes : List Node)
      → healthy_capacity parse_time now nodes min_age (name ∷ [])
        ≤ healthy_capacity parse_time now nodes min_age []
  unfolding healthy_capacity is_spare
  exclude-le min_age name [] = omega arith
  exclude-le min_age name (node ∷ nodes) = ground (arith, exclude-le min_age name nodes)

-- The nodes when every cordon of the decisions has been carried out.
abbrev pub cordon_all : List Decision → List Node → List Node
cordon_all ds nodes = map (cordon_node (cordoned_names ds)) nodes

module _ (parse_time : Option String → Option Instant) (now : Instant) (cfg : PolicyConfig)
    (nodes : List Node) (recent : List Instant) (distinct : NamesIdentify nodes) where
  abbrev cordons : List Decision
  cordons = decide parse_time now cfg nodes recent

  cordoned-Unneeded :
      (node : Node)
      → In node nodes
      → Unneeded parse_time now cfg.condition_min_age_seconds (cordoned_names cordons) node
  unfolding Unneeded
  cordoned-Unneeded node m e =
      let name = text_or_empty node.name in
      let (d, i, c, p) =
        cordoned_names_lem cordons name (contains→In name (cordoned_names cordons) e) in
      let (n, j, q, w) = decide-Warranted parse_time now cfg nodes recent d i c in
      let same : n ≡ node = distinct n node j m (q ∙ p) in
      subst
        (λ k.
          in_cordon_levels (trigger_level parse_time now k cfg.condition_min_age_seconds) ≡ true)
        same
        (Held-trigger_level parse_time now cfg.condition_min_age_seconds n w.kind w.may_cordon
          w.held)

  All-Unneeded :
      (rest : List Node)
      → ((n : Node) → In n rest → In n nodes)
      → All (Unneeded parse_time now cfg.condition_min_age_seconds (cordoned_names cordons)) rest
  All-Unneeded [] h = tt
  All-Unneeded (n ∷ ns) h =
      (cordoned-Unneeded n (h n (inl refl)), All-Unneeded ns (λ k m. h k (inr m)))

  -- Where a name stands for one watched node: carrying out all the cordons of one call leaves the
  -- healthy capacity as it was.
  pub capacity-cordon_all :
      healthy_capacity parse_time now
        (cordon_all (decide parse_time now cfg nodes recent) nodes)
        cfg.condition_min_age_seconds
        []
      ≡ healthy_capacity parse_time now nodes cfg.condition_min_age_seconds []
  capacity-cordon_all =
      healthy_capacity-cordon_node parse_time now cfg.condition_min_age_seconds
        (cordoned_names cordons) nodes (All-Unneeded nodes (λ n m. m))

  -- Where a name stands for one watched node: if one call asks for any cordon, then the healthy
  -- capacity after all of its cordons is not below the configured floor.
  pub floor-cordon_all :
      (d : Decision)
      → In d (decide parse_time now cfg nodes recent)
      → d.action ≡ cordon
      → cfg.min_healthy_nodes
        ≤ℤ pos (
            healthy_capacity parse_time now
              (cordon_all (decide parse_time now cfg nodes recent) nodes)
              cfg.condition_min_age_seconds
              [])
  floor-cordon_all d i c =
      let (n, j, q, w) = decide-Warranted parse_time now cfg nodes recent d i c in
      omega (
        arith,
        capacity-cordon_all,
        w.floor,
        exclude-le parse_time now cfg.condition_min_age_seconds (text_or_empty n.name) nodes,
      )
