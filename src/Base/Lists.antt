-- ===== src/Base/Lists.antt =====
-- Lists over native numbers, under the library's names, and their lemmas.
use event_driven_order_syste.Base.{
  ◌≤◌, Bool-cases, inl, inr, ℕ, zero, suc, ◌+◌, ◌≡◌, refl, ◌↔◌, not, map, Bool, Option, none, some,
  List, [], ◌∷◌, ◌++◌, arith, if◌then◌else◌,
}

module _ {ℓ} {A : Type ℓ} where
  abbrev pub length : List A → ℕ
  length [] = 0
  length (x ∷ xs) = suc (length xs)

  abbrev pub take : ℕ → List A → List A
  take zero xs = []
  take (suc n) [] = []
  take (suc n) (x ∷ xs) = x ∷ take n xs

  abbrev pub get_elem? : List A → ℕ → Option A
  get_elem? [] i = none
  get_elem? (x ∷ xs) zero = some x
  get_elem? (x ∷ xs) (suc i) = get_elem? xs i

  -- `sum(1 for x in xs if p(x))`
  abbrev pub count_if : (A → Bool) → List A → ℕ
  count_if p [] = 0
  count_if p (x ∷ xs) = (if p x then 1 else 0) + count_if p xs

  -- `[x for x in xs if p(x)]`
  abbrev pub keep : (A → Bool) → List A → List A
  keep p [] = []
  keep p (x ∷ xs) = let rest = keep p xs in if p x then x ∷ rest else rest

  -- `any(p(x) for x in xs)` and `all(p(x) for x in xs)`
  abbrev pub any : (A → Bool) → List A → Bool
  any p [] = Bool.false
  any p (x ∷ xs) = if p x then Bool.true else any p xs

  abbrev pub all : (A → Bool) → List A → Bool
  all p [] = Bool.true
  all p (x ∷ xs) = if p x then all p xs else Bool.false

  pub length-append : (xs ys : List A) → length (xs ++ ys) ≡ length xs + length ys
  length-append [] ys = omega arith
  length-append (x ∷ xs) ys = omega (arith, length-append xs ys)

module _ {ℓ κ} {A : Type ℓ} where
  -- Every element satisfies `P`.
  abbrev pub All : (A → Type κ) → List A → Type κ
  All P [] = Unit
  All P (x ∷ xs) = P x × All P xs

-- `last + 1, last + 2, ...`
abbrev pub Consecutive : ℕ → List ℕ → Type 0
Consecutive last [] = Unit
Consecutive last (n ∷ ns) = (n ≡ last + 1) × Consecutive n ns

-- `list(range(first, first + n))`
abbrev pub range_from : (first n : ℕ) → List ℕ
range_from first zero = []
range_from first (suc n) = first ∷ range_from (first + 1) n

abbrev pub is_empty {ℓ} : {A : Type ℓ} → List A → Bool
is_empty [] = Bool.true
is_empty (x ∷ xs) = Bool.false

module _ {ℓ} {A : Type ℓ} where
  -- A test passed by all elements.
  pub all_iff :
      (p : A → Bool) (xs : List A) → (all p xs ≡ Bool.true) ↔ All (λ x. p x ≡ Bool.true) xs
  all_iff p xs = (to xs, from xs)
    where
      to : (xs : List A) → all p xs ≡ Bool.true → All (λ x. p x ≡ Bool.true) xs
      to [] h = tt
      to (x ∷ xs) h = (ground arith, to xs (ground arith))

      from : (xs : List A) → All (λ x. p x ≡ Bool.true) xs → all p xs ≡ Bool.true
      from [] h = refl
      from (x ∷ xs) h = rw h.0 (from xs h.1)

  pub is_empty-keep : (p : A → Bool) (xs : List A) → is_empty (keep p xs) ≡ all (λ x. not (p x)) xs
  is_empty-keep p [] = refl
  is_empty-keep p (x ∷ xs) = ground (arith, is_empty-keep p xs)

  pub is_empty-map {κ} : {B : Type κ} (f : A → B) (xs : List A) → is_empty (map f xs) ≡ is_empty xs
  is_empty-map f [] = refl
  is_empty-map f (x ∷ xs) = refl

  pub is_empty-keep_iff :
      (p : A → Bool) (xs : List A)
      → (is_empty (keep p xs) ≡ Bool.true) ↔ All (λ x. p x ≡ Bool.false) xs
  is_empty-keep_iff p [] = (λ h. tt, λ h. refl)
  is_empty-keep_iff p (x ∷ xs) =
      let (to, from) = is_empty-keep_iff p xs in
      elim (Bool-cases (p x)) [
        | inl h ↦ rw h (λ e. absurd (cc e), λ k. absurd (cc (k.0)))
        | inr h ↦ rw h (λ e. (refl, to e), λ k. from k.1)
      ]

  pub All-keep {κ} : (P : A → Type κ) (p : A → Bool) (xs : List A) → All P xs → All P (keep p xs)
  All-keep P p [] h = tt
  All-keep P p (x ∷ xs) h = elim (Bool-cases (p x)) [
    | inl e ↦ rw e (h.0, All-keep P p xs h.1)
    | inr e ↦ rw e (All-keep P p xs h.1)
  ]

  length-keep-le : (p : A → Bool) (xs : List A) → length (keep p xs) ≤ length xs
  length-keep-le p [] = omega arith
  length-keep-le p (x ∷ xs) = ground (arith, length-keep-le p xs)

  -- A filter that drops nothing.
  pub length-keep_iff :
      (p : A → Bool) (xs : List A)
      → (length xs ≤ length (keep p xs)) ↔ All (λ x. p x ≡ Bool.true) xs
  length-keep_iff p [] = (λ h. tt, λ h. omega arith)
  length-keep_iff p (x ∷ xs) =
      let (to, from) = length-keep_iff p xs in
      elim (Bool-cases (p x)) [
        | inl e ↦ rw e (λ h. (refl, to (omega arith)), λ h. ground (arith, from h.1))
        | inr e ↦ rw e (λ h. absurd (omega (arith, length-keep-le p xs)), λ h. absurd (cc (h.0)))
      ]

module _ {A : Type 0} where
  pub All-map :
      {B : Type 0} (P : B → Type 0) (f : A → B) (xs : List A)
      → All (λ x. P (f x)) xs
      → All P (map f xs)
  All-map P f [] h = tt
  All-map P f (x ∷ xs) h = (h.0, All-map P f xs h.1)
