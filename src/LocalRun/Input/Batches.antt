-- ===== src/LocalRun/Input/Batches.antt =====
-- The batches of the input loop (experiments/run.py) are the whole input, in its order.
use event_driven_order_syste.Base.{
  ℕ, zero, suc, ◌+◌, ◌-◌, ◌≤◌, ◌<◌, ◌≡◌, refl, sym, ◌∙◌, ap, List, [], ◌∷◌, ◌++◌, ltb, arith, inl,
  inr, Bool-cases,
}
use event_driven_order_syste.Base.Lists.{All, length, take}
use event_driven_order_syste.LocalRun.Input.{drop, slice, stamp_from, batches_from, batches}

module _ {A : Type 0} where
  abbrev pub concat : List (List A) → List A
  concat [] = []
  concat (xs ∷ xss) = xs ++ concat xss

  drop_nil : (k : ℕ) → drop {A = A} k [] ≡ []
  drop_nil zero = refl
  drop_nil (suc k) = refl

  drop_again : (k i : ℕ) (xs : List A) → drop (i + k) xs ≡ drop k (drop i xs)
  drop_again k zero xs = ap (λ n. drop n xs) (omega arith)
  drop_again k (suc i) [] = drop_nil (suc i + k) ∙ sym (drop_nil k)
  drop_again k (suc i) (x ∷ xs) =
      let step : suc i + k ≡ suc (i + k) = omega arith in
      ap (λ n. drop n (x ∷ xs)) step ∙ drop_again k i xs

  length-drop : (i : ℕ) (xs : List A) → length (drop i xs) ≡ length xs - i
  length-drop zero xs = omega arith
  length-drop (suc i) [] = omega arith
  length-drop (suc i) (x ∷ xs) = omega (arith, length-drop i xs)

  length-take :
      (k : ℕ) (xs : List A)
      → (length (take k xs) ≤ k) × (length xs ≤ length (take k xs) + (length xs - k))
  length-take zero xs = (omega arith, omega arith)
  length-take (suc k) [] = (omega arith, omega arith)
  length-take (suc k) (x ∷ xs) =
      let (a, b) = length-take k xs in (omega (arith, a), omega (arith, b))

  drop_all : (i : ℕ) (xs : List A) → length xs ≤ i → drop i xs ≡ []
  drop_all zero [] h = refl
  drop_all zero (x ∷ xs) h = absurd (omega arith)
  drop_all (suc i) [] h = refl
  drop_all (suc i) (x ∷ xs) h = drop_all i xs (omega arith)

  length-slice :
      (i k : ℕ) (xs : List A)
      → 0 < k
      → i < length xs
      → (0 < length (slice i (i + k) xs)) × (length (slice i (i + k) xs) ≤ k)
  length-slice i k xs pos h =
      let (most, least) = length-take (i + k - i) (drop i xs) in
      (omega (arith, least, length-drop i xs), omega (arith, most))

  length-stamp_from :
      (stamp : ℕ → A → A) (j : ℕ) (xs : List A) → length (stamp_from stamp j xs) ≡ length xs
  length-stamp_from stamp j [] = refl
  length-stamp_from stamp j (x ∷ xs) = omega (arith, length-stamp_from stamp (j + 1) xs)

  stamp_from-take :
      (stamp : ℕ → A → A) (k j : ℕ) (xs : List A)
      → stamp_from stamp j (take k xs) ++ stamp_from stamp (j + k) (drop k xs)
        ≡ stamp_from stamp j xs
  stamp_from-take stamp zero j xs = ap (λ n. stamp_from stamp n xs) (omega arith)
  stamp_from-take stamp (suc k) j [] = refl
  stamp_from-take stamp (suc k) j (x ∷ xs) =
      let place : j + suc k ≡ j + 1 + k = omega arith in
      rw place (ap (◌∷◌ (stamp j x)) (stamp_from-take stamp k (j + 1) xs))

  stamp-slice :
      (stamp : ℕ → A → A) (k i : ℕ) (xs : List A)
      → stamp_from stamp i (slice i (i + k) xs) ++ stamp_from stamp (i + k) (drop (i + k) xs)
        ≡ stamp_from stamp i (drop i xs)
  stamp-slice stamp k i xs =
      let width : i + k - i ≡ k = omega arith in
      rw (width, drop_again k i xs) (stamp_from-take stamp k i (drop i xs))

  concat-batches_from :
      (stamp : ℕ → A → A) (fuel per_tick i : ℕ) (xs : List A)
      → 0 < per_tick
      → length xs ≤ i + fuel
      → concat (batches_from stamp fuel per_tick i xs) ≡ stamp_from stamp i (drop i xs)
  unfolding batches_from
  concat-batches_from stamp zero per_tick i xs pos h =
      sym (ap (stamp_from stamp i) (drop_all i xs (omega arith)))
  concat-batches_from stamp (suc fuel) per_tick i xs pos h = elim (Bool-cases (ltb i (length xs))) [
    | inl e ↦
        rw (e, concat-batches_from stamp fuel per_tick (i + per_tick) xs pos (omega arith))
          (stamp-slice stamp per_tick i xs)
    | inr e ↦ rw e (sym (ap (stamp_from stamp i) (drop_all i xs (ground (arith, e)))))
  ]

  abbrev IsBatch : ℕ → List A → Type 0
  IsBatch per_tick xs = (0 < length xs) × (length xs ≤ per_tick)

  batches_from-IsBatch :
      (stamp : ℕ → A → A) (fuel per_tick i : ℕ) (xs : List A)
      → 0 < per_tick
      → All (IsBatch per_tick) (batches_from stamp fuel per_tick i xs)
  unfolding batches_from
  batches_from-IsBatch stamp zero per_tick i xs pos = tt
  batches_from-IsBatch stamp (suc fuel) per_tick i xs pos = elim (Bool-cases (ltb i (length xs))) [
    | inl e ↦
        let (some_event, fits) = length-slice i per_tick xs pos (ground (arith, e)) in
        let same = length-stamp_from stamp i (slice i (i + per_tick) xs) in
        rw e (
          (omega (arith, same, some_event), omega (arith, same, fits)),
          batches_from-IsBatch stamp fuel per_tick (i + per_tick) xs pos,
        )
    | inr e ↦ rw e tt
  ]

  -- With a tick of one event at least, the batches are the input in its order, each event stamped
  -- once with the time read for it, and none of them is empty or larger than a tick.
  pub concat-batches :
      (stamp : ℕ → A → A) (per_tick : ℕ) (xs : List A)
      → 0 < per_tick
      → (concat (batches stamp per_tick xs) ≡ stamp_from stamp 0 xs)
        × All (λ batch. (0 < length batch) × (length batch ≤ per_tick)) (batches stamp per_tick xs)
  unfolding batches
  concat-batches stamp per_tick xs pos = (
    concat-batches_from stamp (length xs) per_tick 0 xs pos (omega arith),
    batches_from-IsBatch stamp (length xs) per_tick 0 xs pos,
  )
