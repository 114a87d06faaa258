-- ===== src/Contract/EndToEnd.antt =====
-- The guard's view of the agent's conditions.
use gpu_node_health.Base.{
  String, ◌<>◌, ◌≡◌, refl, sym, ap, subst, ◌∙◌, Bool, true, false, Option, none, some, List, [],
  ◌∷◌, map, arith, ◌=s=◌, eq_iff, inl, inr, In, contains, contains→In, if◌then◌else◌,
}
use gpu_node_health.Base.Int.{Instant}
use gpu_node_health.Base.Dict.{Dict, get, put, get-put}
use gpu_node_health.Agent.Signals.{Kernlog, Dstate, Exporter}
use gpu_node_health.Agent.Conditions.Infos.{Info, Evaluator}
use gpu_node_health.Agent.Conditions.{Sample, evaluate, conditions, all_conditions}
use gpu_node_health.Agent.Conditions.Active.{active_of}
use gpu_node_health.Agent.Publisher.{
  Publisher, condition_prefix, status_text, publish, publish_each, publish_one,
}
use gpu_node_health.Guard.Policy.{condition_index, index_from, is_true, text_or_empty}
use gpu_node_health.Guard.Policy.Types.{Condition, Node}
use gpu_node_health.Recorder.NodeView.{status_of}
use gpu_node_health.Contract.{report, distinct, Merged}

abbrev types : List Condition → List String
types = map (λ c. text_or_empty c.type)

index_from-absent :
    (k : String) (cs : List Condition) (index : Dict Condition)
    → contains k (types cs) ≡ false
    → get k (index_from index cs) ≡ get k index
unfolding index_from
index_from-absent k [] index h = refl
index_from-absent k (c ∷ cs) index h =
    index_from-absent k cs _ (ground arith)
    ∙ ground (
      arith,
      get-put (text_or_empty c.type) k c index,
      eq_iff (text_or_empty c.type) k,
      eq_iff k (text_or_empty c.type),
    )

contains-types :
    (c : Condition) (cs : List Condition)
    → In c cs
    → contains (text_or_empty c.type) (types cs) ≡ true
contains-types c [] m = elim m [ ]
contains-types c (d ∷ ds) (inl e) =
    rw e (rw ((eq_iff (text_or_empty d.type) (text_or_empty d.type)).1 refl))
contains-types c (d ∷ ds) (inr m) = ground (arith, contains-types c ds m)

-- In a list without a repeated type, the index finds each condition under its type.
pub index_from-In :
    (c : Condition) (cs : List Condition) (index : Dict Condition)
    → distinct (types cs) ≡ true
    → (text_or_empty c.type =s= "") ≡ false
    → In c cs
    → get (text_or_empty c.type) (index_from index cs) ≡ some c
unfolding index_from
index_from-In c [] index u n m = elim m [ ]
index_from-In c (d ∷ ds) index u n (inl e) =
    let k = text_or_empty d.type in
    let named : (k =s= "") ≡ false = subst (λ x. (text_or_empty x.type =s= "") ≡ false) e n in
    let found : get k (index_from (if k =s= "" then index else put k d index) ds) ≡ some d =
      ap (λ b. get k (index_from (if b then index else put k d index) ds)) named
      ∙ index_from-absent k ds (put k d index) (ground arith)
      ∙ get-put k k d index
      ∙ rw ((eq_iff k k).1 refl) in
    subst
      (λ x.
        get (text_or_empty x.type) (index_from (if k =s= "" then index else put k d index) ds)
        ≡ some x)
      (sym e) found
index_from-In c (d ∷ ds) index u n (inr m) = index_from-In c ds _ (ground arith) n m

status_text_true : (b : Bool) → (status_text b =s= "True") ≡ b
status_text_true true = refl
status_text_true false = refl

is_true-status :
    (c : Option Condition) (b : Bool) → status_of c ≡ some (status_text b) → is_true c ≡ b
unfolding is_true
is_true-status none b h = cc
is_true-status (some c) b h = ap (λ o. text_or_empty o =s= "True") h ∙ status_text_true b

module _ (e : Evaluator) (now : Instant) (kernlog : Kernlog) (dstate : Dstate) (exporter : Exporter)
    (history : List Sample) (stamp : String) (p : Publisher) (node : Node) where
  abbrev detail : Dict Info
  detail = (evaluate e now kernlog dstate exporter history).0

  status_read :
      (k : String) (c : Condition) (b : Bool)
      → Merged (report e now kernlog dstate exporter history stamp p) node
      → In c node.conditions
      → (k =s= "") ≡ false
      → c.type ≡ some k
      → c.status ≡ some (status_text b)
      → status_of (get k (condition_index node)) ≡ some (status_text b)
  unfolding condition_index
  status_read k c b m i n t s =
      let named : text_or_empty c.type ≡ k = ap text_or_empty t in
      let found : get k (condition_index node) ≡ some c =
        subst (λ x. get x (index_from [] node.conditions) ≡ some c) named
          (index_from-In c node.conditions [] m.unique (ap (λ x. x =s= "") named ∙ n) i) in
      ap status_of found ∙ s

  -- The status of each of the five conditions on the Node is the one that the agent evaluated.
  pub read_back :
      (name : String)
      → In name all_conditions
      → Merged (report e now kernlog dstate exporter history stamp p) node
      → status_of (get (condition_prefix <> name) (condition_index node))
        ≡ some (status_text (active_of name detail))
  unfolding evaluate conditions publish publish_each publish_one get
  read_back name (inl q) m = rw q (status_read _ _ _ m m.present.0 refl refl refl)
  read_back name (inr (inl q)) m = rw q (status_read _ _ _ m m.present.1.0 refl refl refl)
  read_back name (inr (inr (inl q))) m = rw q (status_read _ _ _ m m.present.1.1.0 refl refl refl)
  read_back name (inr (inr (inr (inl q)))) m =
      rw q (status_read _ _ _ m m.present.1.1.1.0 refl refl refl)
  read_back name (inr (inr (inr (inr (inl q))))) m =
      rw q (status_read _ _ _ m m.present.1.1.1.1.0 refl refl refl)
  read_back name (inr (inr (inr (inr (inr i))))) m = elim i [ ]

  -- For each of the five conditions, the guard sees on the Node the status that the agent evaluated,
  -- once the API server has merged what the agent sent, whatever else is on the Node.
  pub is_true-report :
      (name : String)
      → contains name all_conditions ≡ true
      → Merged (report e now kernlog dstate exporter history stamp p) node
      → is_true (get (condition_prefix <> name) (condition_index node))
        ≡ active_of name (evaluate e now kernlog dstate exporter history).0
  is_true-report name c m =
      is_true-status (get (condition_prefix <> name) (condition_index node)) (active_of name detail)
        (read_back name (contains→In name all_conditions c) m)
