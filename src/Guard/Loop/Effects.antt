-- ===== src/Guard/Loop/Effects.antt =====
-- What the methods of guard/gpu_node_guard/main.py do to the cordon history, the cordon counter and
-- the requests sent.
use gpu_node_health.Base.{
  ℕ, zero, suc, ◌+◌, ◌≤◌, String, ◌≡◌, refl, sym, ap, ◌∙◌, inl, inr, Option, List, [], ◌∷◌, ◌++◌,
  arith, Bool-cases, if◌then◌else◌,
}
use gpu_node_health.Base.Int.{Instant}
use gpu_node_health.Guard.Policy.Types.{Action, cordon, noop, Decision}
use gpu_node_health.Guard.Policy.RateLimit.{cordon_count}
use gpu_node_health.Guard.World.{
  Kind, Call, cordon_call, event_call, Answer, ok, Cluster, GuardConfig, World, M, pure, and_then,
  ◌>>=◌, ◌>>◌,
}
use native.Mathlib.Nat.{zero-add, suc-add}
use mathlib.Core.List.{append-nil, append_assoc}
use gpu_node_health.Guard.Loop.{event_of, emit}

abbrev pub replicate : ℕ → Instant → List Instant
replicate zero t = []
replicate (suc n) t = t ∷ replicate n t

replicate-add : (n m : ℕ) (t : Instant) → replicate (n + m) t ≡ replicate n t ++ replicate m t
replicate-add zero m t = rw zero-add
replicate-add (suc n) m t = rw suc-add (ap (λ l. t ∷ l) (replicate-add n m t))

module _ (cluster : Cluster) where
  -- The nodes that the API server cordoned on request.
  abbrev pub performs : Call → ℕ
  performs (cordon_call name) = if cluster.cordon_ok name then 1 else 0
  performs _ = 0

  unfoldable pub performed : List Call → ℕ
  performed [] = 0
  performed (c ∷ cs) = performs c + performed cs

  pub performed-append : (xs ys : List Call) → performed (xs ++ ys) ≡ performed xs + performed ys
  unfolding performed
  performed-append [] ys = omega arith
  performed-append (x ∷ xs) ys = omega (arith, performed-append xs ys)

  -- How many nodes carrying out a decision cordons.
  abbrev pub accepted_as : Action → Decision → ℕ
  accepted_as cordon dec = if cluster.cordon_ok dec.node then 1 else 0
  accepted_as noop dec = 0

  abbrev pub accepted : Decision → ℕ
  accepted dec = accepted_as dec.action dec

  unfoldable pub accepted_all : List Decision → ℕ
  accepted_all [] = 0
  accepted_all (dec ∷ decs) = accepted dec + accepted_all decs

  pub accepted_all-le : (decs : List Decision) → accepted_all decs ≤ cordon_count decs
  unfolding accepted_all
  accepted_all-le [] = omega arith
  accepted_all-le (dec ∷ decs) = ground (arith, accepted_all-le decs)

  -- Between the two states `n` cordons were performed at the instant `now`, and each was recorded.
  pub record Cordons (now : Instant) (n : ℕ) (w w' : World) : Type 0 where
    pub history : w'.recent_cordons ≡ w.recent_cordons ++ replicate n now
    pub sent : performed w'.calls ≡ performed w.calls + n
    pub total : w'.state.cordons_total ≡ w.state.cordons_total
    pub errors : w'.state.loop_errors ≡ w.state.loop_errors

  pub Cordons-trans :
      (now : Instant) (n m : ℕ) {u v w : World}
      → Cordons now n u v
      → Cordons now m v w
      → Cordons now (n + m) u w
  Cordons-trans now n m {u} h k = record {
    history =
        k.history
        ∙ ap (λ l. l ++ replicate m now) h.history
        ∙ append_assoc u.recent_cordons (replicate n now) (replicate m now)
        ∙ ap (λ l. u.recent_cordons ++ l) (sym (replicate-add n m now));
    sent = omega (arith, h.sent, k.sent);
    total = k.total ∙ h.total;
    errors = k.errors ∙ h.errors;
  }

  -- A request that is no cordon, with a change of a part of the state that none of this reads.
  pub Cordons-request :
      (now : Instant) (c : Call) {w w' : World}
      → performs c ≡ 0
      → w'.recent_cordons ≡ w.recent_cordons
      → w'.calls ≡ w.calls ++ c ∷ []
      → w'.state.cordons_total ≡ w.state.cordons_total
      → w'.state.loop_errors ≡ w.state.loop_errors
      → Cordons now 0 w w'
  unfolding performed
  Cordons-request now c {w} p h s t e = record {
    history = h ∙ sym (append-nil w.recent_cordons);
    sent = ap performed s ∙ performed-append w.calls (c ∷ []) ∙ omega (arith, p);
    total = t;
    errors = e;
  }

module _ (cluster : Cluster) (now : Instant) where
  abbrev pub Carries : {A : Type 0} → A → ℕ → World → Answer A × World → Type 0
  Carries a n w r = (r.0 ≡ ok a) × Cordons cluster now n w r.1

  pub Carries-bind :
      {A B : Type 0} (m : M A) (f : A → M B) {a : A} {b : B} (n k : ℕ) (w : World)
      → Carries a n w (m w)
      → Carries b k (m w).1 (f a (m w).1)
      → Carries b (n + k) w ((m >>= f) w)
  Carries-bind m f n k w h g = rw (h.0, and_then) (g.0, Cordons-trans cluster now n k h.1 g.1)

  pub Carries-cast :
      {A : Type 0} {a : A} (n k : ℕ) (w : World) (r : Answer A × World)
      → n ≡ k
      → Carries a n w r
      → Carries a k w r
  Carries-cast n k w r e h = (h.0, rw e at (h.1))

  pub Carries-after :
      {A : Type 0} {a : A} (n : ℕ) (w v : World) (r : Answer A × World)
      → Cordons cluster now n w v
      → Carries a 0 v r
      → Carries a n w r
  Carries-after n w v r h g =
      let e : n + 0 ≡ n = omega arith in (g.0, rw e at (Cordons-trans cluster now n 0 h g.1))

  pub Carries-pure : {A : Type 0} (a : A) (w : World) → Carries a 0 w (pure a w)
  Carries-pure a w = (
    refl,
    record {
      history = sym (append-nil w.recent_cordons);
      sent = omega arith;
      total = refl;
      errors = refl;
    },
  )

module _ (parse_time : Option String → Option Instant) (stamp : Instant → String)
    (cfg : GuardConfig) (cluster : Cluster) (now : Instant) where
  pub emit-Cordons :
      (kind : Kind) (name reason message : String) (w : World)
      → let r = emit parse_time stamp cfg cluster now kind name reason message w in
        (r.0 ≡ ok tt) × Cordons cluster now 0 w r.1
  unfolding emit
  emit-Cordons kind name reason message w =
      let event = event_of parse_time stamp cfg cluster now kind name reason message in
      elim (Bool-cases (cluster.event_ok event)) [
        | inl e ↦
            rw e (refl, Cordons-request cluster now (event_call event) refl refl refl refl refl)
        | inr e ↦
            rw e (refl, Cordons-request cluster now (event_call event) refl refl refl refl refl)
      ]

  pub emit_then :
      {A : Type 0} (a : A) (kind : Kind) (name reason message : String) (w : World)
      → Carries cluster now a 0 w
          ((emit parse_time stamp cfg cluster now kind name reason message >> pure a) w)
  emit_then a kind name reason message w =
      let m = emit parse_time stamp cfg cluster now kind name reason message in
      Carries-cast cluster now 0 0 w ((m >> pure a) w) refl (
        Carries-bind cluster now m (λ _. pure a) 0 0 w (emit-Cordons kind name reason message w)
          (Carries-pure cluster now a (m w).1))
