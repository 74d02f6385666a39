-- ===== src/RunCheck/Window.antt =====
-- `max_in_window` of experiments/isolation/check.py: the most times in a window of `window_ms`.
pub mod Closed
use event_driven_order_syste.Base.{
  ℕ, suc, ◌+◌, ◌-◌, ◌≡◌, refl, max, Bool, List, [], ◌∷◌, ltb, leb, if◌then◌else◌,
}
use event_driven_order_syste.RunCheck.Stats.{sorted}

-- `x <= v - 1e-9` for whole numbers, with v - 1e-9 rounded to a double: above 2 ** 24 half the
-- distance to the double below is more than 1e-9, so the difference is v again.
abbrev pub precise_limit : ℕ
precise_limit = 16777216

abbrev pub reaches : (v x : ℕ) → Bool
reaches v = if ltb precise_limit v then (λ x. leb x v) else (λ x. ltb x v)

-- `bisect.bisect_right` over a sorted list: the length of the run of elements up to the bound.
unfoldable pub bisect_right : (ℕ → Bool) → List ℕ → ℕ
bisect_right up_to [] = 0
bisect_right up_to (x ∷ xs) = if up_to x then suc (bisect_right up_to xs) else 0

-- The loop over the places `i` of the sorted list. `j - i` is at least 0 or leaves `best` alone.
unfoldable pub window_loop : (times : List ℕ) (window_ms i : ℕ) → List ℕ → (best : ℕ) → ℕ
unfolding bisect_right
window_loop times window_ms i [] best = best
window_loop times window_ms i (t ∷ rest) best =
    window_loop times window_ms (i + 1) rest
      (max best (bisect_right (reaches (t + window_ms)) times - i))

unfoldable pub max_in_window : List ℕ → (window_ms : ℕ) → ℕ
unfolding window_loop sorted
max_in_window times window_ms = window_loop (sorted times) window_ms 0 (sorted times) 0

-- Below 2 ** 24 the window is half-open, above it is closed.
max_in_window_small : max_in_window (1000 ∷ 0 ∷ 500 ∷ []) 1000 ≡ 2
unfolding max_in_window
max_in_window_small = refl

max_in_window_epoch : max_in_window (1700000001000 ∷ 1700000000000 ∷ 1700000000500 ∷ []) 1000 ≡ 3
unfolding max_in_window
max_in_window_epoch = refl
