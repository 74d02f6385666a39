-- ===== src/Base/Group.antt =====
-- `collections.defaultdict(list)` filled by a loop, and statements about all entries of a dict.
use event_driven_order_syste.Base.{
  ◌≡◌, ◌||◌, refl, false, not, sym, ap, ◌∙◌, subst, ◌↔◌, Option-cases, Bool, true, Option, none,
  some, List, [], ◌∷◌, ◌++◌, arith, HasEq, ◌==◌, ==_iff, if◌then◌else◌, Bool-cases, inl, inr,
}
use mathlib.Core.List.{append_assoc, append-nil}
use event_driven_order_syste.Base.Dict.{Dict, lookup, insert, contains, lookup-insert}
use event_driven_order_syste.Base.Lists.{All, all, all_iff, keep, is_empty}

abbrev pub or_nil {ℓ} : {A : Type ℓ} → Option (List A) → List A
or_nil none = []
or_nil (some xs) = xs

module _ {K A : Type 0} ⦃e : HasEq K⦄ (key : A → K) where
  unfoldable pub group_into : List A → Dict K (List A) → Dict K (List A)
  group_into [] d = d
  group_into (x ∷ xs) d = group_into xs (insert (key x) (or_nil (lookup (key x) d) ++ x ∷ []) d)

  -- `d[key(x)].append(x)` for each x.
  unfoldable pub group_by : List A → Dict K (List A)
  unfolding group_into
  group_by xs = group_into xs []

module _ {K A : Type 0} ⦃e : HasEq K⦄ where
  -- `d[k]`
  abbrev pub members : K → Dict K (List A) → List A
  members k d = or_nil (lookup k d)

module _ {K A : Type 0} ⦃e : HasEq K⦄ (key : A → K) where
  members-insert :
      (k j : K) (v : List A) (d : Dict K (List A))
      → members k (insert j v d) ≡ (if j == k then v else members k d)
  members-insert k j v d = ground (arith, lookup-insert j k v d)

  members-group_into :
      (k : K) (xs : List A) (d : Dict K (List A))
      → members k (group_into key xs d) ≡ members k d ++ keep (λ x. key x == k) xs
  unfolding group_into
  members-group_into k [] d = sym (append-nil (members k d))
  members-group_into k (x ∷ xs) d =
      rw (members-group_into k xs (insert (key x) (or_nil (lookup (key x) d) ++ x ∷ []) d))
        (elim (Bool-cases (key x == k)) [
          | inl h ↦
              rw (members-insert k (key x) (or_nil (lookup (key x) d) ++ x ∷ []) d)
                (rw h (rw ((==_iff (key x) k).0 h) (append_assoc (members k d) (x ∷ []) _)))
          | inr h ↦
              rw (members-insert k (key x) (or_nil (lookup (key x) d) ++ x ∷ []) d) (rw h refl)
        ])

  -- A key's list holds the elements with that key, in their order.
  pub members-group_by :
      (k : K) (xs : List A) → members k (group_by key xs) ≡ keep (λ x. key x == k) xs
  unfolding group_by lookup
  members-group_by k xs = members-group_into k xs []

module _ {K V : Type 0} ⦃e : HasEq K⦄ where
  -- Keys occur once.
  abbrev pub KeysUnique : Dict K V → Type 0
  KeysUnique [] = Unit
  KeysUnique ((k, v) ∷ d) = (lookup k d ≡ none) × KeysUnique d

  pub insert-KeysUnique : (k : K) (v : V) (d : Dict K V) → KeysUnique d → KeysUnique (insert k v d)
  unfolding insert lookup
  insert-KeysUnique k v [] u = (refl, tt)
  insert-KeysUnique k v ((j, w) ∷ d) u = elim (Bool-cases (j == k)) [
    | inl h ↦ rw h u
    | inr h ↦ rw h (
      ground (arith, lookup-insert k j v d, e.agrees j k, e.agrees k j, u.0),
      insert-KeysUnique k v d u.1,
    )
  ]

  -- A test passed by all entries is passed by each value that is found.
  pub all-lookup :
      (p : K × V → Bool) (d : Dict K V) (k : K) (v : V)
      → all p d ≡ true
      → lookup k d ≡ some v
      → p (k, v) ≡ true
  unfolding lookup
  all-lookup p [] k v h f = cc
  all-lookup p ((j, w) ∷ d) k v h f = elim (Bool-cases (p (j, w))) [
    | inr no_pass ↦ absurd (ground arith)
    | inl pass ↦ elim (Bool-cases (j == k)) [
      | inl same ↦ ground (arith, (e.agrees j k).0 same)
      | inr other ↦ all-lookup p d k v (ground arith) (ground arith)
    ]
  ]

  -- A test passed by every value that is found is passed by all entries.
  pub lookup-all :
      (p : K × V → Bool) (d : Dict K V)
      → KeysUnique d
      → ((k : K) (v : V) → lookup k d ≡ some v → p (k, v) ≡ true)
      → all p d ≡ true
  unfolding lookup
  lookup-all p [] u h = refl
  lookup-all p ((j, w) ∷ d) u h = rw (h j w (rw ((e.agrees j j).1 refl))) (
      lookup-all p d u.1 (λ k v f. h k v (elim (Bool-cases (j == k)) [
        | inl same ↦ absurd (ground (arith, (e.agrees j k).0 same, u.0))
        | inr other ↦ rw other f
      ])))

module _ {K A : Type 0} ⦃e : HasEq K⦄ (key : A → K) where
  group_into-KeysUnique :
      (xs : List A) (d : Dict K (List A)) → KeysUnique d → KeysUnique (group_into key xs d)
  unfolding group_into
  group_into-KeysUnique [] d u = u
  group_into-KeysUnique (x ∷ xs) d u =
      group_into-KeysUnique xs _
        (insert-KeysUnique (key x) (or_nil (lookup (key x) d) ++ x ∷ []) d u)

  pub group_by-KeysUnique : (xs : List A) → KeysUnique (group_by key xs)
  unfolding group_by
  group_by-KeysUnique xs = group_into-KeysUnique xs [] tt

  -- A test that passes on the empty list is passed by all groups exactly when it is passed by the
  -- elements of every key.
  pub all-group_by :
      (p : K → List A → Bool) (xs : List A)
      → ((k : K) → p k [] ≡ true)
      → (all (λ entry. p entry.0 entry.1) (group_by key xs) ≡ true)
        ↔ ((k : K) → p k (keep (λ x. key x == k) xs) ≡ true)
  all-group_by p xs empty = (
    λ h k. rw (← members-group_by key k xs) (elim (Option-cases (lookup k (group_by key xs))) [
      | inl f ↦ rw f (empty k)
      | inr (v, f) ↦ rw f (all-lookup (λ entry. p entry.0 entry.1) (group_by key xs) k v h f)
    ]),
    λ h.
        lookup-all (λ entry. p entry.0 entry.1) (group_by key xs) (group_by-KeysUnique xs)
          (λ k v f.
            subst (λ ys. p k ys ≡ true) (sym (members-group_by key k xs) ∙ ap or_nil f) (h k)),
  )

  NonEmptyValues : Dict K (List A) → Type 0
  NonEmptyValues d = All (λ entry. is_empty entry.1 ≡ false) d

  insert-NonEmptyValues :
      (k : K) (v : List A) (d : Dict K (List A))
      → is_empty v ≡ false
      → NonEmptyValues d
      → NonEmptyValues (insert k v d)
  unfolding insert NonEmptyValues
  insert-NonEmptyValues k v [] n h = (n, tt)
  insert-NonEmptyValues k v ((j, w) ∷ d) n h = elim (Bool-cases (j == k)) [
    | inl same ↦ rw same (n, h.1)
    | inr other ↦ rw other (h.0, insert-NonEmptyValues k v d n h.1)
  ]

  is_empty-snoc : (xs : List A) (x : A) → is_empty (xs ++ x ∷ []) ≡ false
  is_empty-snoc [] x = refl
  is_empty-snoc (y ∷ xs) x = refl

  group_into-NonEmptyValues :
      (xs : List A) (d : Dict K (List A)) → NonEmptyValues d → NonEmptyValues (group_into key xs d)
  unfolding group_into
  group_into-NonEmptyValues [] d h = h
  group_into-NonEmptyValues (x ∷ xs) d h = group_into-NonEmptyValues xs _ (
      insert-NonEmptyValues (key x) (or_nil (lookup (key x) d) ++ x ∷ []) d
        (is_empty-snoc (or_nil (lookup (key x) d)) x) h)

  all-NonEmptyValues :
      (p : K → List A → Bool) (d : Dict K (List A))
      → NonEmptyValues d
      → all (λ entry. p entry.0 entry.1) d ≡ all (λ entry. is_empty entry.1 || p entry.0 entry.1) d
  unfolding NonEmptyValues
  all-NonEmptyValues p [] h = refl
  all-NonEmptyValues p ((k, v) ∷ d) h = ground (arith, h.0, all-NonEmptyValues p d h.1)

  -- A test is passed by all groups exactly when it is passed by the elements of every key that
  -- has some.
  pub all-group_by_some :
      (p : K → List A → Bool) (xs : List A)
      → (all (λ entry. p entry.0 entry.1) (group_by key xs) ≡ true)
        ↔ ((k : K) → (let ys = keep (λ x. key x == k) xs in is_empty ys || p k ys) ≡ true)
  unfolding group_by NonEmptyValues
  all-group_by_some p xs =
      let same = all-NonEmptyValues p (group_by key xs) (group_into-NonEmptyValues xs [] tt) in
      let (to, from) = all-group_by (λ k ys. is_empty ys || p k ys) xs (λ k. refl) in
      (λ h. to (sym same ∙ h), λ h. same ∙ from h)

  All-imp :
      (d : Dict K (List A))
      → All (λ entry. is_empty entry.1 ≡ false) d
      → All (λ entry. not (is_empty entry.1) ≡ true) d
  All-imp [] h = tt
  All-imp (x ∷ d) h = (ground (arith, h.0), All-imp d h.1)

  group_by-NonEmpty : (xs : List A) → all (λ entry. not (is_empty entry.1)) (group_by key xs) ≡ true
  unfolding group_by NonEmptyValues
  group_by-NonEmpty xs =
      (all_iff (λ entry. not (is_empty entry.1)) (group_by key xs)).1
        (All-imp (group_by key xs) (group_into-NonEmptyValues xs [] tt))

  -- A key is there exactly if some element has it.
  pub contains-group_by :
      (k : K) (xs : List A)
      → contains k (group_by key xs) ≡ not (is_empty (keep (λ x. key x == k) xs))
  unfolding contains
  contains-group_by k xs =
      rw (← members-group_by key k xs) (elim (Option-cases (lookup k (group_by key xs))) [
        | inl f ↦ rw (f, contains)
        | inr (v, f) ↦
            rw (f, contains)
              (sym (
                all-lookup (λ entry. not (is_empty entry.1)) (group_by key xs) k v
                  (group_by-NonEmpty xs) f))
      ])

  -- The list of a key, which is never empty.
  pub lookup-group_by :
      (k : K) (xs : List A)
      → lookup k (group_by key xs)
        ≡ (if is_empty (keep (λ x. key x == k) xs) then none else some (keep (λ x. key x == k) xs))
  unfolding contains
  lookup-group_by k xs =
      let same = members-group_by key k xs in
      let there = contains-group_by k xs in
      elim (Option-cases (lookup k (group_by key xs))) [
        | inl f ↦
            let none_there : contains k (group_by key xs) ≡ false = rw (contains, f) refl in
            rw f (ground (arith, none_there, there))
        | inr (v, f) ↦
            let it_is_there : contains k (group_by key xs) ≡ true = rw (contains, f) refl in
            let v_is : v ≡ keep (λ x. key x == k) xs = sym (ap or_nil f) ∙ same in
            rw (f, v_is) (ground (arith, it_is_there, there))
      ]
