-- ===== src/Base/Sort.antt =====
-- Python's `sorted`: a stable sort by a Boolean order. Insertion sort returns the same list as any
-- stable sort does.
use event_driven_order_syste.Base.{
  ◌+◌, ◌≡◌, refl, Bool, true, false, List, [], ◌∷◌, arith, if◌then◌else◌, Bool-cases, inl, inr,
}
use event_driven_order_syste.Base.Lists.{All, All-keep, keep, count_if, length}

-- What a sort key gives: a total, transitive comparison.
pub record IsOrder {ℓ} {A : Type ℓ} (le : A → A → Bool) : Type ℓ where
  pub total : (a b : A) → le a b ≡ false → le b a ≡ true
  pub trans : (a b c : A) → le a b ≡ true → le b c ≡ true → le a c ≡ true

module _ {ℓ} {A : Type ℓ} (le : A → A → Bool) where
  unfoldable pub insert_by : A → List A → List A
  insert_by x [] = x ∷ []
  insert_by x (y ∷ ys) = if le x y then x ∷ y ∷ ys else y ∷ insert_by x ys

  unfoldable pub sort_by : List A → List A
  unfolding insert_by
  sort_by [] = []
  sort_by (x ∷ xs) = insert_by x (sort_by xs)

  -- Each element stands before all that follow.
  abbrev pub IsSorted : List A → Type 0
  IsSorted [] = Unit
  IsSorted (x ∷ xs) = All (λ y. le x y ≡ true) xs × IsSorted xs

  count_if-insert_by :
      (p : A → Bool) (x : A) (xs : List A)
      → count_if p (insert_by x xs) ≡ (if p x then 1 else 0) + count_if p xs
  unfolding insert_by
  count_if-insert_by p x [] = omega arith
  count_if-insert_by p x (y ∷ ys) = ground (arith, count_if-insert_by p x ys)

  -- Sorting moves elements and changes none.
  pub count_if-sort_by : (p : A → Bool) (xs : List A) → count_if p (sort_by xs) ≡ count_if p xs
  unfolding sort_by
  count_if-sort_by p [] = omega arith
  count_if-sort_by p (x ∷ xs) =
      omega (arith, count_if-insert_by p x (sort_by xs), count_if-sort_by p xs)

  pub length-insert_by : (x : A) (xs : List A) → length (insert_by x xs) ≡ length xs + 1
  unfolding insert_by
  length-insert_by x [] = omega arith
  length-insert_by x (y ∷ ys) = ground (arith, length-insert_by x ys)

  pub length-sort_by : (xs : List A) → length (sort_by xs) ≡ length xs
  unfolding sort_by
  length-sort_by [] = omega arith
  length-sort_by (x ∷ xs) = omega (arith, length-insert_by x (sort_by xs), length-sort_by xs)

  pub All-insert_by {κ} :
      (P : A → Type κ) (x : A) (xs : List A) → P x → All P xs → All P (insert_by x xs)
  unfolding insert_by
  All-insert_by P x [] px h = (px, tt)
  All-insert_by P x (y ∷ ys) px h = elim (Bool-cases (le x y)) [
    | inl e ↦ rw e (px, h)
    | inr e ↦ rw e (h.0, All-insert_by P x ys px h.1)
  ]

  pub All-sort_by {κ} : (P : A → Type κ) (xs : List A) → All P xs → All P (sort_by xs)
  unfolding sort_by
  All-sort_by P [] h = tt
  All-sort_by P (x ∷ xs) h = All-insert_by P x (sort_by xs) h.0 (All-sort_by P xs h.1)

  All-le :
      IsOrder le
      → (a b : A) (xs : List A) → le a b ≡ true
      → All (λ y. le b y ≡ true) xs
      → All (λ y. le a y ≡ true) xs
  All-le o a b [] h k = tt
  All-le o a b (x ∷ xs) h k = (o.trans a b x h k.0, All-le o a b xs h k.1)

  insert_by-IsSorted : IsOrder le → (x : A) (xs : List A) → IsSorted xs → IsSorted (insert_by x xs)
  unfolding insert_by
  insert_by-IsSorted o x [] h = (tt, tt)
  insert_by-IsSorted o x (y ∷ ys) h = elim (Bool-cases (le x y)) [
    | inl e ↦ rw e ((e, All-le o x y ys e h.0), h)
    | inr e ↦
        rw e (
          All-insert_by (λ z. le y z ≡ true) x ys (o.total x y e) h.0,
          insert_by-IsSorted o x ys h.1,
        )
  ]

  pub sort_by-IsSorted : IsOrder le → (xs : List A) → IsSorted (sort_by xs)
  unfolding sort_by
  sort_by-IsSorted o [] = tt
  sort_by-IsSorted o (x ∷ xs) = insert_by-IsSorted o x (sort_by xs) (sort_by-IsSorted o xs)

  insert_by-front : (x : A) (xs : List A) → All (λ z. le x z ≡ true) xs → insert_by x xs ≡ x ∷ xs
  unfolding insert_by
  insert_by-front x [] h = refl
  insert_by-front x (y ∷ ys) h = rw h.0 refl

  keep-insert_by :
      IsOrder le
      → (p : A → Bool) (x : A) (xs : List A) → IsSorted xs
      → keep p (insert_by x xs) ≡ (if p x then insert_by x (keep p xs) else keep p xs)
  unfolding insert_by
  keep-insert_by o p x [] h = ground arith
  keep-insert_by o p x (y ∷ ys) h = elim (Bool-cases (le x y)) [
    | inl e ↦
        let front =
          insert_by-front x (keep p (y ∷ ys))
            (All-keep (λ z. le x z ≡ true) p (y ∷ ys) (e, All-le o x y ys e h.0)) in
        rw (e, front) refl
    | inr e ↦ ground (arith, keep-insert_by o p x ys h.1, e)
  ]

  -- A filter of a sorted list is the sorted filter.
  pub keep-sort_by :
      IsOrder le → (p : A → Bool) (xs : List A) → keep p (sort_by xs) ≡ sort_by (keep p xs)
  unfolding sort_by
  keep-sort_by o p [] = refl
  keep-sort_by o p (x ∷ xs) =
      ground (arith, keep-insert_by o p x (sort_by xs) (sort_by-IsSorted o xs), keep-sort_by o p xs)
