-- ===== src/LocalRun/Dataset/Share.antt =====
-- The shares of the sellers in `dataset` (experiments/run.py).
use event_driven_order_syste.Base.{
  ℕ, zero, suc, ◌+◌, ◌*◌, ◌%◌, ◌≡◌, refl, ◌∙◌, ap, String, Bool, false, List, [], ◌∷◌, ◌++◌, map,
  ◌==◌, nat_eq, string_eq, arith, if◌then◌else◌, Bool-cases, inl, inr,
}
use event_driven_order_syste.Base.Lists.{length, length-append, count_if, range_from}
use event_driven_order_syste.Event.{Event}
use event_driven_order_syste.LocalRun.Dataset.{
  Workload, market, seller_for, dataset_event, phases_from, dataset,
}

module _ {A : Type 0} where
  count_if-append :
      (p : A → Bool) (xs ys : List A) → count_if p (xs ++ ys) ≡ count_if p xs + count_if p ys
  count_if-append p [] ys = omega arith
  count_if-append p (x ∷ xs) ys = omega (arith, count_if-append p xs ys)

length-map : {A B : Type 0} (f : A → B) (xs : List A) → length (map f xs) ≡ length xs
length-map f [] = refl
length-map f (x ∷ xs) = ap suc (length-map f xs)

length-range_from : (first n : ℕ) → length (range_from first n) ≡ n
length-range_from first zero = refl
length-range_from first (suc n) = ap suc (length-range_from (first + 1) n)

module _ (name : ℕ → String) (event_id : (i seq : ℕ) → String) (run_id : String)
    (now : (i seq : ℕ) → ℕ) (others : (n : ℕ) → (name n == "slow") ≡ false) where
  abbrev is_slow : Event → Bool
  is_slow e = e.seller_id == "slow"

  abbrev event : Workload → (seq i : ℕ) → Event
  event = dataset_event name event_id run_id now

  slow_market : (seq i : ℕ) → is_slow (event market seq i) ≡ (i % 5 == 0)
  unfolding dataset_event seller_for
  slow_market seq i = elim (Bool-cases (i % 5 == 0)) [
    | inl e ↦ rw e refl
    | inr e ↦ rw e (others (i % 19 + 1))
  ]

  slow_at : ℕ → ℕ → ℕ
  slow_at seq i = if is_slow (event market seq i) then 1 else 0

  slow_at-lem : (seq i : ℕ) → slow_at seq i ≡ (if i % 5 == 0 then 1 else 0)
  unfolding slow_at
  slow_at-lem seq i = rw (slow_market seq i) refl

  -- Of five consecutive orders from a multiple of five one is of the big seller.
  slow_in_five :
      (seq k n : ℕ)
      → count_if is_slow
          (map (event market seq) (range_from (5 * k) (suc (suc (suc (suc (suc n)))))))
        ≡ suc (count_if is_slow (map (event market seq) (range_from (5 * suc k) n)))
  unfolding slow_at
  slow_in_five seq k n =
      let next : 5 * k + 1 + 1 + 1 + 1 + 1 ≡ 5 * suc k = omega arith in
      let rest = ap (λ f. count_if is_slow (map (event market seq) (range_from f n))) next in
      ground (
        arith,
        slow_at-lem seq (5 * k),
        slow_at-lem seq (5 * k + 1),
        slow_at-lem seq (5 * k + 1 + 1),
        slow_at-lem seq (5 * k + 1 + 1 + 1),
        slow_at-lem seq (5 * k + 1 + 1 + 1 + 1),
        rest,
      )

  slow_in_phase :
      (seq k m : ℕ) → count_if is_slow (map (event market seq) (range_from (5 * k) (5 * m))) ≡ m
  slow_in_phase seq k zero = refl
  slow_in_phase seq k (suc m) =
      let five : 5 * suc m ≡ suc (suc (suc (suc (suc (5 * m))))) = omega arith in
      rw five (slow_in_five seq k (5 * m) ∙ ap suc (slow_in_phase seq (suc k) m))

  slow_in_phases :
      (m seq operations : ℕ)
      → count_if is_slow (phases_from name event_id run_id now market (5 * m) seq operations)
        ≡ operations * m
  unfolding phases_from
  slow_in_phases m seq zero = omega arith
  slow_in_phases m seq (suc operations) =
      let first = map (event market seq) (range_from 0 (5 * m)) in
      let rest = phases_from name event_id run_id now market (5 * m) (seq + 1) operations in
      let joined = count_if-append is_slow first rest in
      let left = slow_in_phase seq 0 m in
      let right = slow_in_phases m (seq + 1) operations in
      let product : suc operations * m ≡ m + operations * m = grind arith in
      joined ∙ omega (arith, left, right, product)

  length-phases_from :
      (workload : Workload) (orders seq operations : ℕ)
      → length (phases_from name event_id run_id now workload orders seq operations)
        ≡ operations * orders
  unfolding phases_from
  length-phases_from workload orders seq zero = omega arith
  length-phases_from workload orders seq (suc operations) =
      let first = map (event workload seq) (range_from 0 orders) in
      let rest = phases_from name event_id run_id now workload orders (seq + 1) operations in
      let product : suc operations * orders ≡ orders + operations * orders = grind arith in
      length-append first rest
      ∙ omega (
        arith,
        length-map (event workload seq) (range_from 0 orders),
        length-range_from 0 orders,
        length-phases_from workload orders (seq + 1) operations,
        product,
      )

  -- When no other seller has its name, the big seller of the market workload has a fifth of the
  -- events of a number of orders that is a multiple of five; and every workload has as many events
  -- as there are orders and operations.
  pub slow_in_dataset :
      (workload : Workload) (orders m operations : ℕ)
      → (length (dataset name event_id run_id now orders operations workload) ≡ operations * orders)
        × (count_if is_slow (dataset name event_id run_id now (5 * m) operations market)
            ≡ operations * m)
  unfolding dataset
  slow_in_dataset workload orders m operations =
      (length-phases_from workload orders 1 operations, slow_in_phases m 1 operations)
