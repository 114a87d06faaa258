-- ===== src/Base/Sorted.antt =====
-- Python's `sorted` of the items of a dict, whose keys differ.
use Prim.Native.Char.{code}
use gpu_node_health.Base.{
  String, Bool, true, false, ◌==◌, Bool-cases, inl, inr, List, [], ◌∷◌, ltb, if◌then◌else◌,
}
use gpu_node_health.Base.Lists.{All}

-- `s < t`
unfoldable pub is_before : String → String → Bool
is_before s String.[] = false
is_before String.[] (String.◌∷◌ d t) = true
is_before (String.◌∷◌ c s) (String.◌∷◌ d t) =
    let later = is_before s t in if code c == code d then later else ltb (code c) (code d)

module _ {A : Type 0} where
  unfoldable pub insert : String × A → List (String × A) → List (String × A)
  insert (k, v) [] = (k, v) ∷ []
  insert (k, v) ((j, w) ∷ rest) =
      let further = insert (k, v) rest in
      if is_before j k then (j, w) ∷ further else (k, v) ∷ (j, w) ∷ rest

  -- `sorted(d.items())`
  unfoldable pub sorted : List (String × A) → List (String × A)
  unfolding insert
  sorted [] = []
  sorted (x ∷ xs) = insert x (sorted xs)

  insert-All :
      (P : String × A → Type 0) (x : String × A) (xs : List (String × A))
      → P x
      → All P xs
      → All P (insert x xs)
  unfolding insert
  insert-All P (k, v) [] p h = (p, tt)
  insert-All P (k, v) ((j, w) ∷ rest) p h = elim (Bool-cases (is_before j k)) [
    | inl e ↦ rw (insert, e) (h.0, insert-All P (k, v) rest p h.1)
    | inr e ↦ rw (insert, e) (p, h)
  ]

  pub sorted-All : (P : String × A → Type 0) (xs : List (String × A)) → All P xs → All P (sorted xs)
  unfolding sorted
  sorted-All P [] h = tt
  sorted-All P (x ∷ xs) h = insert-All P x (sorted xs) h.0 (sorted-All P xs h.1)
