-- ===== src/RunCheck/Window/Closed.antt =====
-- At the times of a run, epoch milliseconds, `max_in_window` (experiments/isolation/check.py)
-- counts the times of a closed window.
use event_driven_order_syste.Base.{
  ℕ, ◌+◌, ◌-◌, ◌≤◌, ◌<◌, ◌≡◌, refl, ◌↔◌, max, Bool, true, ◌&&◌, List, [], ◌∷◌, arith, ltb, leb,
}
use event_driven_order_syste.Base.Lists.{All, count_if}
use event_driven_order_syste.Base.Sort.{
  IsSorted, sort_by, sort_by-IsSorted, count_if-sort_by, All-sort_by,
}
use event_driven_order_syste.RunCheck.Stats.{sorted}
use event_driven_order_syste.RunCheck.Stats.Rank.{leb-IsOrder, at_most}
use event_driven_order_syste.RunCheck.Window.{
  precise_limit, reaches, bisect_right, window_loop, max_in_window,
}

-- The times from `a` to `a + window_ms`, both included.
abbrev pub in_window : (window_ms a : ℕ) → ℕ → Bool
in_window window_ms a x = leb a x && leb x (a + window_ms)

lt→ltb : (a b : ℕ) → a < b → ltb a b ≡ true
lt→ltb a b h = ground arith

bisect_right-at_most :
    (v : ℕ) (xs : List ℕ) → IsSorted leb xs → bisect_right (λ x. leb x v) xs ≡ at_most v xs
unfolding bisect_right
bisect_right-at_most v [] o = refl
bisect_right-at_most v (x ∷ xs) o =
    ground (arith, bisect_right-at_most v xs o.1, none_at_most v x xs o.0)
  where
    none_at_most : (v x : ℕ) (xs : List ℕ) → All (λ y. leb x y ≡ true) xs → v < x → at_most v xs ≡ 0
    none_at_most v x [] h lt = refl
    none_at_most v x (y ∷ ys) h lt = ground (arith, none_at_most v x ys h.1)

bisect_right-reaches :
    (v : ℕ) (xs : List ℕ)
    → IsSorted leb xs
    → precise_limit < v
    → bisect_right (reaches v) xs ≡ at_most v xs
bisect_right-reaches v xs o big = rw (lt→ltb precise_limit v big) (bisect_right-at_most v xs o)

-- The most elements of a suffix that lie within the window from its first element.
best_from : (window_ms : ℕ) → List ℕ → ℕ
best_from window_ms [] = 0
best_from window_ms (t ∷ rest) = max (at_most (t + window_ms) (t ∷ rest)) (best_from window_ms rest)

-- The loop finds it, wherever it stands in the list.
window_loop-best_from :
    (times : List ℕ) (w i lo : ℕ) (rest : List ℕ) (best : ℕ)
    → IsSorted leb times
    → IsSorted leb rest
    → All (λ t. precise_limit < t) rest
    → All (λ t. leb lo t ≡ true) rest
    → ((v : ℕ) → lo ≤ v → at_most v times ≡ i + at_most v rest)
    → window_loop times w i rest best ≡ max best (best_from w rest)
unfolding window_loop best_from
window_loop-best_from times w i lo [] best o r e l h = omega arith
window_loop-best_from times w i lo (t ∷ rest) best o r e l h =
    let found = bisect_right-reaches (t + w) times o (omega arith) in
    let here : bisect_right (reaches (t + w)) times - i ≡ at_most (t + w) (t ∷ rest) =
      ground (arith, found, h (t + w), l.0) in
    let after =
      window_loop-best_from times w (i + 1) t rest (max best (at_most (t + w) (t ∷ rest))) o r.1 e.1
        r.0 (λ v le. ground (arith, h v, l.0)) in
    rw here (omega (arith, after))

best_from-ge :
    (w a : ℕ) (xs : List ℕ) → IsSorted leb xs → count_if (in_window w a) xs ≤ best_from w xs
unfolding best_from
best_from-ge w a [] o = omega arith
best_from-ge w a (t ∷ rest) o =
    ground (arith, best_from-ge w a rest o.1, window-at_most w a t (t ∷ rest))
  where
    window-at_most :
        (w a t : ℕ) (xs : List ℕ) → a ≤ t → count_if (in_window w a) xs ≤ at_most (t + w) xs
    window-at_most w a t [] le = omega arith
    window-at_most w a t (x ∷ xs) le = ground (arith, window-at_most w a t xs le)

-- From its own first element on, a sorted list has in the window what is within reach.
at_most-window :
    (w t : ℕ) (xs : List ℕ)
    → All (λ y. leb t y ≡ true) xs
    → at_most (t + w) xs ≤ count_if (in_window w t) xs
at_most-window w t [] h = omega arith
at_most-window w t (x ∷ xs) h = ground (arith, at_most-window w t xs h.1)

best_from-le :
    (w bound : ℕ) (xs : List ℕ)
    → IsSorted leb xs
    → ((a : ℕ) → count_if (in_window w a) xs ≤ bound)
    → best_from w xs ≤ bound
unfolding best_from
best_from-le w bound [] o h = omega arith
best_from-le w bound (t ∷ rest) o h =
    let later = best_from-le w bound rest o.1 (λ a. omega (arith, h a)) in
    let here : at_most (t + w) (t ∷ rest) ≤ bound =
      ground (arith, at_most-window w t rest o.0, h t) in
    omega arith

All-leb_zero : (xs : List ℕ) → All (λ t. leb 0 t ≡ true) xs
All-leb_zero [] = tt
All-leb_zero (x ∷ xs) = (ground arith, All-leb_zero xs)

-- For times above 2 ** 24, a number bounds `max_in_window` exactly when it bounds, for every `a`,
-- the number of times from `a` to `a + window_ms`, the time `a + window_ms` included.
pub max_in_window-le_iff :
    (times : List ℕ) (w bound : ℕ)
    → All (λ t. precise_limit < t) times
    → (max_in_window times w ≤ bound) ↔ ((a : ℕ) → count_if (in_window w a) times ≤ bound)
unfolding max_in_window sorted
max_in_window-le_iff times w bound e =
    let xs = sort_by leb times in
    let o = sort_by-IsSorted leb leb-IsOrder times in
    let same = λ (a : ℕ). count_if-sort_by leb (in_window w a) times in
    let loop =
      window_loop-best_from xs w 0 0 xs 0 o o (All-sort_by leb (λ t. precise_limit < t) times e)
        (All-leb_zero xs) (λ v le. omega arith) in
    (
      λ h a. omega (arith, h, loop, same a, best_from-ge w a xs o),
      λ h. rw loop (omega (arith, best_from-le w bound xs o (λ a. omega (arith, h a, same a)))),
    )
