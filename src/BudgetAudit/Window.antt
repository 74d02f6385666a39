-- ===== src/BudgetAudit/Window.antt =====
-- The rolling retry budget (experiments/verify_budgets.py): the windows that end at an admission
-- bound every window.
use event_driven_order_syste.Base.{
  ℕ, max, ◌≤◌, ◌≡◌, ◌⊎◌, sym, subst, refl, true, false, List, [], ◌∷◌, arith, leb, if◌then◌else◌,
  inl, inr, Bool-cases,
}
use event_driven_order_syste.Base.Lists.{All, count_if}
use event_driven_order_syste.BudgetAudit.{in_last_second}

-- The latest of the times up to `a`, 0 without one.
latest : ℕ → List ℕ → ℕ
latest a [] = 0
latest a (x ∷ xs) = max (if leb x a then x else 0) (latest a xs)

latest-le : (a : ℕ) (xs : List ℕ) → latest a xs ≤ a
unfolding latest
latest-le a [] = omega arith
latest-le a (x ∷ xs) = ground (arith, latest-le a xs)

-- The second that ends at a time `v` up to `a` holds what the second that ends at `a` holds, when no
-- time lies between.
count_if-earlier :
    (a v : ℕ) (xs : List ℕ)
    → v ≤ a
    → latest a xs ≤ v
    → count_if (in_last_second a) xs ≤ count_if (in_last_second v) xs
unfolding latest
count_if-earlier a v [] h k = omega arith
count_if-earlier a v (x ∷ xs) h k =
    let rest = count_if-earlier a v xs h (ground arith) in ground (arith, rest)

max-cases : (P : ℕ → Type 0) (x y : ℕ) → P x → P y → P (max x y)
max-cases P x y p q = elim (Bool-cases (leb x y)) [
  | inl e ↦ subst P (sym (right x y e)) q
  | inr e ↦ subst P (sym (left x y e)) p
]
  where
    right : (x y : ℕ) → leb x y ≡ true → max x y ≡ y
    right x y e = ground arith

    left : (x y : ℕ) → leb x y ≡ false → max x y ≡ x
    left x y e = ground arith

latest-All :
    (P : ℕ → Type 0) (a : ℕ) (xs : List ℕ)
    → All P xs
    → ((latest a xs ≡ 0) × (count_if (in_last_second a) xs ≡ 0)) ⊎ P (latest a xs)
unfolding latest
latest-All P a [] h = inl (refl, refl)
latest-All P a (x ∷ xs) h = elim (latest-All P a xs h.1) [
  | inl (zero_then, none_then) ↦ elim (Bool-cases (leb x a)) [
    | inl e ↦ inr (subst P (only x (latest a xs) e zero_then) h.0)
    | inr e ↦ inl (ground (arith, zero_then, none_then, e))
  ]
  | inr p ↦ elim (Bool-cases (leb x a)) [
    | inl e ↦ inr (rw e (max-cases P x (latest a xs) h.0 p))
    | inr e ↦ inr (subst P (skip x (latest a xs) e) p)
  ]
]
  where
    only : (x m : ℕ) → leb x a ≡ true → m ≡ 0 → x ≡ max (if leb x a then x else 0) m
    only x m e z = ground arith

    skip : (x m : ℕ) → leb x a ≡ false → m ≡ max (if leb x a then x else 0) m
    skip x m e = ground arith

-- If the second that ends at each of the times holds at most `bound` of them, every second does.
pub all_windows :
    (bound a : ℕ) (xs : List ℕ)
    → All (λ v. count_if (in_last_second v) xs ≤ bound) xs
    → count_if (in_last_second a) xs ≤ bound
all_windows bound a xs h = elim (latest-All (λ v. count_if (in_last_second v) xs ≤ bound) a xs h) [
  | inl (z, e) ↦ omega (arith, e)
  | inr p ↦ omega (arith, p, count_if-earlier a (latest a xs) xs (latest-le a xs) (omega arith))
]
