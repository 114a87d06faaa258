-- ===== src/Guard/Loop/Counting.antt =====
-- Counts of recorded instants within a time window, for the rate limit of
-- guard/gpu_node_guard/policy.py and the pruning in guard/gpu_node_guard/main.py.
use gpu_node_health.Base.{
  ℕ, zero, suc, ◌+◌, ◌≤◌, ◌≡◌, refl, Bool, true, not, ◌&&◌, List, [], ◌∷◌, ◌++◌, arith,
  if◌then◌else◌,
}
use gpu_node_health.Base.Int.{ℤ, ◌-ℤ◌, -ℤ_parts, ◌≤ℤ◌, ltb_ℤ, Instant, seconds}
use gpu_node_health.Guard.Policy.{recent_count}
use gpu_node_health.Guard.Loop.{prune}
use gpu_node_health.Guard.Loop.Effects.{replicate}

-- The instants of the log within the window that ends at `t`: those in (t - window, t].
abbrev pub in_window : ℤ → Instant → Instant → Bool
in_window window t s = not (ltb_ℤ t s) && ltb_ℤ (t -ℤ s) (seconds window)

unfoldable pub count_window : ℤ → Instant → List Instant → ℕ
count_window window t [] = 0
count_window window t (s ∷ log) =
    (if in_window window t s then 1 else 0) + count_window window t log

module _ (window : ℤ) where
  pub recent_count-append :
      (t : Instant) (xs ys : List Instant)
      → recent_count t window (xs ++ ys) ≡ recent_count t window xs + recent_count t window ys
  unfolding recent_count
  recent_count-append t [] ys = omega arith
  recent_count-append t (x ∷ xs) ys = omega (arith, recent_count-append t xs ys)

  pub count_window-append :
      (t : Instant) (xs ys : List Instant)
      → count_window window t (xs ++ ys) ≡ count_window window t xs + count_window window t ys
  unfolding count_window
  count_window-append t [] ys = omega arith
  count_window-append t (x ∷ xs) ys = omega (arith, count_window-append t xs ys)

  -- What the pruning drops is out of the window at any later time.
  pub recent_count-prune :
      (now t : Instant) (xs : List Instant)
      → now ≤ℤ t
      → recent_count t window (prune now window xs) ≡ recent_count t window xs
  unfolding recent_count prune
  recent_count-prune now t [] h = refl
  recent_count-prune now t (x ∷ xs) h =
      ground (arith, recent_count-prune now t xs h, -ℤ_parts t x, -ℤ_parts now (seconds window))

  pub count_window-le :
      (t : Instant) (xs : List Instant) → count_window window t xs ≤ recent_count t window xs
  unfolding recent_count count_window
  count_window-le t [] = omega arith
  count_window-le t (x ∷ xs) = ground (arith, count_window-le t xs)

  pub recent_count_anti :
      (now t : Instant) (xs : List Instant)
      → now ≤ℤ t
      → recent_count t window xs ≤ recent_count now window xs
  unfolding recent_count
  recent_count_anti now t [] h = omega arith
  recent_count_anti now t (x ∷ xs) h =
      ground (arith, recent_count_anti now t xs h, -ℤ_parts t x, -ℤ_parts now x)

  pub recent_count-replicate-le :
      (t now : Instant) (n : ℕ) → recent_count t window (replicate n now) ≤ n
  unfolding recent_count
  recent_count-replicate-le t now zero = omega arith
  recent_count-replicate-le t now (suc n) = ground (arith, recent_count-replicate-le t now n)

  pub count_window_before :
      (t now : Instant) (n : ℕ) → ltb_ℤ t now ≡ true → count_window window t (replicate n now) ≡ 0
  unfolding count_window
  count_window_before t now zero h = refl
  count_window_before t now (suc n) h = ground (arith, count_window_before t now n h)
