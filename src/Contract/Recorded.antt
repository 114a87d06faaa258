-- ===== src/Contract/Recorded.antt =====
-- What the recorder of tools/stress-recorder.py sees on the Node of the conditions that the agent evaluates.
use gpu_node_health.Base.{
  String, ◌<>◌, ◌≡◌, refl, ap, ◌∙◌, Bool, true, false, Option, none, some, List, [], ◌∷◌, arith,
  ◌=s=◌, eq_iff, inl, inr, In, if◌then◌else◌,
}
use gpu_node_health.Base.Int.{Instant}
use gpu_node_health.Base.Dict.{Dict, get, put, get-put}
use gpu_node_health.Agent.Signals.{Kernlog, Dstate, Exporter}
use gpu_node_health.Agent.Conditions.Infos.{Evaluator}
use gpu_node_health.Agent.Conditions.{Sample, evaluate, all_conditions}
use gpu_node_health.Agent.Conditions.Active.{active_of}
use gpu_node_health.Agent.Publisher.{Publisher, condition_prefix, status_text}
use gpu_node_health.Guard.Policy.{condition_index, index_from, text_or_empty}
use gpu_node_health.Guard.Policy.Types.{Condition, Node}
use gpu_node_health.Recorder.NodeView.{columns, entry, index_of, status_of, letter, node_view}
use gpu_node_health.Contract.{report, Merged}
use gpu_node_health.Contract.EndToEnd.{read_back}

-- The recorder and the guard index the conditions alike, but for a condition with an empty type.
index_of-index_from :
    (k : String) (cs : List Condition) (i j : Dict Condition)
    → (k =s= "") ≡ false
    → get k i ≡ get k j
    → get k (index_of i cs) ≡ get k (index_from j cs)
unfolding index_of index_from
index_of-index_from k [] i j n h = h
index_of-index_from k (c ∷ cs) i j n h =
    index_of-index_from k cs _ _ n (entry-get k c.type c i j n h)
  where
    entry-get :
        (k : String) (t : Option String) (c : Condition) (i j : Dict Condition)
        → (k =s= "") ≡ false
        → get k i ≡ get k j
        → get k (entry t c i)
          ≡ get k (if text_or_empty t =s= "" then j else put (text_or_empty t) c j)
    entry-get k none c i j n h = h
    entry-get k (some t) c i j n h =
        ground (arith, get-put t k c i, get-put t k c j, eq_iff t k, eq_iff t "", eq_iff k "", h)

column_read :
    (node : Node) (short full : String)
    → In (short, full) columns
    → get ("api_" <> short) (node_view (some node))
      ≡ some (letter (status_of (get (condition_prefix <> full) (index_of [] node.conditions))))
unfolding node_view get put
column_read node short full (inl q) = rw (ap (λ x. x.0) q, ap (λ x. x.1) q) refl
column_read node short full (inr (inl q)) = rw (ap (λ x. x.0) q, ap (λ x. x.1) q) refl
column_read node short full (inr (inr (inl q))) = rw (ap (λ x. x.0) q, ap (λ x. x.1) q) refl
column_read node short full (inr (inr (inr (inl q)))) = rw (ap (λ x. x.0) q, ap (λ x. x.1) q) refl
column_read node short full (inr (inr (inr (inr (inl q))))) =
    rw (ap (λ x. x.0) q, ap (λ x. x.1) q) refl
column_read node short full (inr (inr (inr (inr (inr i))))) = elim i [ ]

published : (short full : String) → In (short, full) columns → In full all_conditions
published short full (inl q) = inl (ap (λ x. x.1) q)
published short full (inr (inl q)) = inr (inl (ap (λ x. x.1) q))
published short full (inr (inr (inl q))) = inr (inr (inl (ap (λ x. x.1) q)))
published short full (inr (inr (inr (inl q)))) = inr (inr (inr (inl (ap (λ x. x.1) q))))
published short full (inr (inr (inr (inr (inl q))))) = inr (inr (inr (inr (inl (ap (λ x. x.1) q)))))
published short full (inr (inr (inr (inr (inr i))))) = elim i [ ]

named : (full : String) → In full all_conditions → ((condition_prefix <> full) =s= "") ≡ false
named full (inl q) = rw q refl
named full (inr (inl q)) = rw q refl
named full (inr (inr (inl q))) = rw q refl
named full (inr (inr (inr (inl q)))) = rw q refl
named full (inr (inr (inr (inr (inl q))))) = rw q refl
named full (inr (inr (inr (inr (inr i))))) = elim i [ ]

abbrev pub shown : Bool → String
shown b = if b then "T" else "F"

letter-status : (b : Bool) → letter (some (status_text b)) ≡ shown b
letter-status true = refl
letter-status false = refl

module _ (e : Evaluator) (now : Instant) (kernlog : Kernlog) (dstate : Dstate) (exporter : Exporter)
    (history : List Sample) (stamp : String) (p : Publisher) (node : Node) where
  -- The recorder writes T in the column of a condition exactly if the agent evaluated it as active, and F
  -- otherwise, once the API server has merged what the agent sent, whatever else is on the Node.
  pub node_view-report :
      (short full : String)
      → In (short, full) columns
      → Merged (report e now kernlog dstate exporter history stamp p) node
      → get ("api_" <> short) (node_view (some node))
        ≡ some (shown (active_of full (evaluate e now kernlog dstate exporter history).0))
  unfolding condition_index
  node_view-report short full i m =
      let known = published short full i in
      let key = condition_prefix <> full in
      let same = index_of-index_from key node.conditions [] [] (named full known) refl in
      let read = read_back e now kernlog dstate exporter history stamp p node full known m in
      column_read node short full i
      ∙ ap (λ c. some (letter (status_of c))) same
      ∙ ap (λ o. some (letter o)) read
      ∙ ap some (letter-status _)
