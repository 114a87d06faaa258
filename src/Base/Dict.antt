-- ===== src/Base/Dict.antt =====
-- A Python dict with text keys: an association list in insertion order. A write to a key that is
-- there keeps the key's place, as Python does.
use gpu_node_health.Base.{
  String, ◌≡◌, refl, Option, none, some, List, [], ◌∷◌, arith, ◌=s=◌, eq_iff, if◌then◌else◌,
}

abbrev pub Dict {ℓ} : Type ℓ → Type ℓ
Dict V = List (String × V)

module _ {ℓ} {V : Type ℓ} where
  -- `d.get(k)`
  unfoldable pub get : String → Dict V → Option V
  get k [] = none
  get k ((j, v) ∷ m) = if j =s= k then some v else get k m

  -- `d[k] = v`
  unfoldable pub put : String → V → Dict V → Dict V
  put k v [] = (k, v) ∷ []
  put k v ((j, w) ∷ m) = if j =s= k then (j, v) ∷ m else (j, w) ∷ put k v m

  -- `d.pop(k, None)`
  unfoldable pub pop : String → Dict V → Dict V
  pop k [] = []
  pop k ((j, v) ∷ m) = let rest = pop k m in if j =s= k then rest else (j, v) ∷ rest

  pub get-put :
      (k j : String) (v : V) (m : Dict V)
      → get j (put k v m) ≡ (if k =s= j then some v else get j m)
  unfolding get put
  get-put k j v [] = refl
  get-put k j v ((i, w) ∷ m) = ground (arith, eq_iff k j, eq_iff i k, eq_iff i j, get-put k j v m)

  pub get-pop : (k j : String) (m : Dict V) → get j (pop k m) ≡ (if k =s= j then none else get j m)
  unfolding get pop
  get-pop k j [] = ground arith
  get-pop k j ((i, v) ∷ m) = ground (arith, get-pop k j m, eq_iff i k, eq_iff i j, eq_iff k j)

-- `d.setdefault(k, v)` returns the value that stands at `k` afterwards.
abbrev pub default_to {ℓ} : {V : Type ℓ} → V → Option V → V
default_to v none = v
default_to v (some w) = w
