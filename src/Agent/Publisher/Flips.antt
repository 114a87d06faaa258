-- ===== src/Agent/Publisher/Flips.antt =====
-- The transition times of agent/gpu_health_agent/main.py, `ConditionPublisher`, over many publishes.
use gpu_node_health.Base.{
  String, ◌≡◌, refl, ap, ◌∙◌, true, Option, none, some, List, [], ◌∷◌, arith, inl, inr, ◌=s=◌,
  eq_iff, contains, Bool-cases, if◌then◌else◌,
}
use gpu_node_health.Base.Dict.{Dict, get, get-put}
use gpu_node_health.Agent.Conditions.Infos.{Info}
use gpu_node_health.Agent.Conditions.{all_conditions}
use gpu_node_health.Agent.Publisher.{
  Publisher, silent, status_text, is_same, observe, publish_one, publish_each, publish,
}

-- The times and statuses at which a condition was published, newest first.
abbrev pub Log : Type 0
Log = List (String × String)

-- The time of the oldest entry of the newest stretch with one status.
abbrev pub flipped : Log → Option String
flipped [] = none
flipped ((t, s) ∷ []) = some t
flipped ((t, s) ∷ (u, r) ∷ older) = if r =s= s then flipped ((u, r) ∷ older) else some t

abbrev newest : Log → Option String
newest [] = none
newest ((t, s) ∷ older) = some s

abbrev status_of : Option Info → Option String
status_of none = none
status_of (some info) = some (status_text info.active)

abbrev pub log_publish : String → Option String → Log → Log
log_publish now none log = log
log_publish now (some status) log = (now, status) ∷ log

-- The log of one condition over the publishes, oldest publish first.
unfoldable pub log_of : String → Log → List (String × Dict Info) → Log
log_of name log [] = log
log_of name log ((now, detail) ∷ rest) =
    log_of name (log_publish now (status_of (get name detail)) log) rest

unfoldable pub publish_all : Publisher → List (String × Dict Info) → Publisher
publish_all p [] = p
publish_all p ((now, detail) ∷ rest) = publish_all (publish now detail p).1 rest

-- What the publisher knows of a condition, and what one status does to it.
abbrev Known : Type 0
Known = Option String × Option String

abbrev known : String → Publisher → Known
known name p = (get name p.last_status, get name p.transitions)

abbrev see : String → Option String → Known → Known
see now none k = k
see now (some status) k = (some status, if is_same k.0 status then k.1 else some now)

see-see :
    (now : String) (status : Option String) (k : Known)
    → see now status (see now status k) ≡ see now status k
see-see now none k = refl
see-see now (some status) k = rw ((eq_iff status status).1 refl)

known-observe :
    (now name status j : String) (p : Publisher)
    → known j (observe now name status p)
      ≡ (if name =s= j then see now (some status) (known name p) else known j p)
unfolding observe
known-observe now name status j p =
    ground
      (arith, get-put name j status p.last_status, get-put name j now p.transitions, eq_iff name j)

known-publish_one :
    (now name j : String) (info : Option Info) (p : Publisher)
    → known j (publish_one now name info p).1
      ≡ (if name =s= j then see now (status_of info) (known name p) else known j p)
unfolding publish_one
known-publish_one now name j none p = ground (arith, eq_iff name j)
known-publish_one now name j (some info) p = known-observe now name (status_text info.active) j p

known-publish_each :
    (now j : String) (detail : Dict Info) (names : List String) (p : Publisher)
    → known j (publish_each now detail names p).1
      ≡ (if contains j names then see now (status_of (get j detail)) (known j p) else known j p)
unfolding publish_each
known-publish_each now j detail [] p = refl
known-publish_each now j detail (name ∷ names) p =
    known-publish_each now j detail names (publish_one now name (get name detail) p).1
    ∙ ap (λ k. if contains j names then see now (status_of (get j detail)) k else k)
        (known-publish_one now name j (get name detail) p)
    ∙ elim (Bool-cases (name =s= j)) [
      | inl e ↦ rw ((eq_iff name j).0 e) (
          rw ((eq_iff j j).1 refl) (elim (Bool-cases (contains j names)) [
            | inl c ↦ rw c (see-see now (status_of (get j detail)) (known j p))
            | inr c ↦ rw c
          ]))
      | inr e ↦ ground (arith, eq_iff name j, eq_iff j name)
    ]

-- What stands in the two dicts agrees with the log.
abbrev Agrees : String → Publisher → Log → Type 0
Agrees name p log = known name p ≡ (newest log, flipped log)

see-log_publish :
    (now : String) (status : Option String) (log : Log)
    → see now status (newest log, flipped log)
      ≡ (newest (log_publish now status log), flipped (log_publish now status log))
see-log_publish now none log = refl
see-log_publish now (some status) [] = refl
see-log_publish now (some status) ((u, r) ∷ older) = refl

Agrees-publish :
    (now name : String) (detail : Dict Info) (p : Publisher) (log : Log)
    → contains name all_conditions ≡ true
    → Agrees name p log
    → Agrees name (publish now detail p).1 (log_publish now (status_of (get name detail)) log)
unfolding publish
Agrees-publish now name [] p log m h = unfold get in h
Agrees-publish now name (d ∷ detail) p log m h =
    known-publish_each now name (d ∷ detail) all_conditions p
    ∙ rw m (ap (see now (status_of (get name (d ∷ detail)))) h ∙ see-log_publish now _ log)

Agrees-publish_all :
    (name : String) (rounds : List (String × Dict Info)) (p : Publisher) (log : Log)
    → contains name all_conditions ≡ true
    → Agrees name p log
    → Agrees name (publish_all p rounds) (log_of name log rounds)
unfolding publish_all log_of
Agrees-publish_all name [] p log m h = h
Agrees-publish_all name ((now, detail) ∷ rest) p log m h =
    Agrees-publish_all name rest _ _ m (Agrees-publish now name detail p log m h)

-- Over any publishes since the start of the agent, the transition time of each of the five conditions
-- is the time of the publish at which its status took the value that it has kept since. Publishes
-- that repeat a status or do not have the condition leave it alone.
pub transition-publish_all :
    (name : String) (rounds : List (String × Dict Info))
    → contains name all_conditions ≡ true
    → get name (publish_all silent rounds).transitions ≡ flipped (log_of name [] rounds)
transition-publish_all name rounds m =
    ap (λ k. k.1) (Agrees-publish_all name rounds silent [] m (unfold get in refl))
