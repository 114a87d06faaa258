-- ===== src/Base/Lists.antt =====
-- Lists measured by native numbers, the predicate that holds of every element, and membership
-- tests, which compute.
use Prim.Native.Nat.{ℕ, zero, suc, ◌+◌, ◌-◌, Ordering}
use Prim.Native.String.{String, ◌++◌ as ◌<>◌, compare}
use mathlib.Core.Path.{◌≡◌}
use mathlib.Core.Logic.{◌⊎◌, inl, inr}
use mathlib.Core.Bool.{Bool, true, false, ◌||◌}
use mathlib.Core.List.{List, [], ◌∷◌, ◌++◌}
use native.Mathlib.Omega.{arith}
use text.Mathlib.Text.{◌==◌}
use text.Mathlib.TextEquality.{eq_iff}
use text.Mathlib.TextLemmas.{nil-append, cons-append}
use gpu_node_health.Base.Tests.{Bool-cases, if◌then◌else◌}

module _ {ℓ} {A : Type ℓ} where
  abbrev pub length : List A → ℕ
  length [] = 0
  length (x ∷ xs) = suc (length xs)

  pub length-append : (xs ys : List A) → length (xs ++ ys) ≡ length xs + length ys
  length-append [] ys = omega arith
  length-append (x ∷ xs) ys = omega (arith, length-append xs ys)

abbrev pub All {ℓ κ} : {A : Type ℓ} → (A → Type κ) → List A → Type κ
All P [] = Unit
All P (x ∷ xs) = P x × All P xs

pub All-append {ℓ κ} :
    {A : Type ℓ} (P : A → Type κ) (xs ys : List A) → All P xs → All P ys → All P (xs ++ ys)
All-append P [] ys h k = k
All-append P (x ∷ xs) ys h k = (h.0, All-append P xs ys h.1 k)

-- `x in xs` for texts.
abbrev pub contains : String → List String → Bool
contains x [] = false
contains x (y ∷ ys) = x == y || contains x ys

-- Membership that can be taken apart into data.
abbrev pub In : {A : Type 0} → A → List A → Type 0
In x [] = ⊥
In x (y ∷ ys) = (x ≡ y) ⊎ In x ys

pub contains→In : (x : String) (ys : List String) → contains x ys ≡ true → In x ys
contains→In x [] e = cc
contains→In x (y ∷ ys) e = elim (Bool-cases (x == y)) [
  | inl h ↦ inl ((eq_iff x y).0 h)
  | inr h ↦ inr (contains→In x ys (rw h at e))
]

pub In→contains : (x : String) (ys : List String) → In x ys → contains x ys ≡ true
In→contains x [] h = elim h [ ]
In→contains x (y ∷ ys) (inl h) = rw ((eq_iff x y).1 h)
In→contains x (y ∷ ys) (inr m) = ground (arith, In→contains x ys m)

-- `xs[:n]`
abbrev pub take {ℓ} : {A : Type ℓ} → ℕ → List A → List A
take zero xs = []
take (suc n) [] = []
take (suc n) (x ∷ xs) = x ∷ take n xs

-- The parts of an f-string, one after another.
abbrev pub concat : List String → String
concat [] = ""
concat (s ∷ ss) = s <> concat ss

-- `sep.join(texts)`
abbrev pub join : String → List String → String
join sep [] = ""
join sep (s ∷ []) = s
join sep (s ∷ t ∷ ss) = s <> (sep <> join sep (t ∷ ss))

-- `s < t` for texts.
abbrev pub before : String → String → Bool
before s t = elim (compare s t) [ Ordering.lt ↦ true | _ ↦ false ]

-- `sorted(pairs)` where the keys differ.
module _ {ℓ} {V : Type ℓ} where
  unfoldable pub insert_sorted : String → V → List (String × V) → List (String × V)
  insert_sorted k v [] = (k, v) ∷ []
  insert_sorted k v ((j, w) ∷ rest) =
      let later = insert_sorted k v rest in
      if before j k then (j, w) ∷ later else (k, v) ∷ (j, w) ∷ rest

  unfoldable pub sorted : List (String × V) → List (String × V)
  sorted [] = []
  sorted ((k, v) ∷ rest) = insert_sorted k v (sorted rest)

-- `text[:n]`
unfoldable pub take_chars : ℕ → String → String
take_chars zero s = ""
take_chars (suc n) String.[] = ""
take_chars (suc n) (String.◌∷◌ c s) = String.◌∷◌ c (take_chars n s)

-- The number of characters.
abbrev pub chars : String → ℕ
chars String.[] = 0
chars (String.◌∷◌ c s) = suc (chars s)

-- `text[n:]`
abbrev pub drop_chars : ℕ → String → String
drop_chars zero s = s
drop_chars (suc n) String.[] = ""
drop_chars (suc n) (String.◌∷◌ c s) = drop_chars n s

pub drop_chars-chars : (s t : String) → drop_chars (chars s) (s <> t) ≡ t
drop_chars-chars String.[] t = nil-append t
drop_chars-chars (String.◌∷◌ c s) t = rw cons-append (drop_chars-chars s t)

pub chars-append : (s t : String) → chars (s <> t) ≡ chars s + chars t
chars-append String.[] t = rw nil-append (omega arith)
chars-append (String.◌∷◌ c s) t = rw cons-append (omega (arith, chars-append s t))

-- `text[-n:]`
abbrev pub last_chars : ℕ → String → String
last_chars n s = drop_chars (chars s - n) s
