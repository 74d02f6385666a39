-- ===== src/RunCheck/Stats/Rank.antt =====
-- `pct` (experiments/isolation/check.py) returns the nearest-rank percentile.
use event_driven_order_syste.Base.{
  ℕ, zero, suc, ◌+◌, ◌-◌, ◌*◌, ◌/◌, ◌≤◌, ◌<◌, ◌≡◌, refl, true, false, some, List, [], ◌∷◌, arith,
  ltb, leb,
}
use event_driven_order_syste.Base.Lists.{All, length, count_if, get_elem?}
use event_driven_order_syste.Base.Sort.{
  IsOrder, IsSorted, sort_by, sort_by-IsSorted, count_if-sort_by, length-sort_by,
}
use event_driven_order_syste.RunCheck.Stats.{
  sorted, pct, rank_index, Quantile, q50, q95, q99, percent_of,
}

leb_total : (a b : ℕ) → leb a b ≡ false → leb b a ≡ true
leb_total a b h = ground arith

leb_trans : (a b c : ℕ) → leb a b ≡ true → leb b c ≡ true → leb a c ≡ true
leb_trans a b c h k = ground arith

pub leb-IsOrder : IsOrder leb
leb-IsOrder = record { total = leb_total; trans = leb_trans }

abbrev pub at_most : ℕ → List ℕ → ℕ
at_most v = count_if (λ x. leb x v)

abbrev pub below : ℕ → List ℕ → ℕ
below v = count_if (λ x. ltb x v)

below-head : (x : ℕ) (xs : List ℕ) → All (λ y. leb x y ≡ true) xs → below x xs ≡ 0
below-head x [] h = refl
below-head x (y ∷ ys) h = ground (arith, below-head x ys h.1)

head_le :
    (x : ℕ) (xs : List ℕ) (i v : ℕ) → All (λ y. leb x y ≡ true) xs → get_elem? xs i ≡ some v → x ≤ v
head_le x [] i v h e = cc
head_le x (y ∷ ys) zero v h e = ground arith
head_le x (y ∷ ys) (suc i) v h e = head_le x ys i v h.1 e

-- In a sorted list the element at place `i` has `i` elements before it at most that are smaller,
-- and `i + 1` at least that are not greater.
rank_of :
    (xs : List ℕ) (i v : ℕ)
    → IsSorted leb xs
    → get_elem? xs i ≡ some v
    → (i + 1 ≤ at_most v xs) × (below v xs ≤ i)
rank_of [] i v o e = absurd (ground arith)
rank_of (x ∷ xs) zero v o e = ground (arith, below-head x xs o.0)
rank_of (x ∷ xs) (suc i) v o e = ground (arith, rank_of xs i v o.1 e, head_le x xs i v o.0 e)

pub get_elem?-lt {ℓ} :
    {A : Type ℓ} (xs : List A) (i : ℕ) → i < length xs → (v : A) × (get_elem? xs i ≡ some v)
get_elem?-lt [] i h = absurd (omega arith)
get_elem?-lt (x ∷ xs) zero h = (x, refl)
get_elem?-lt (x ∷ xs) (suc i) h = get_elem?-lt xs i (omega arith)

percent_bounds : (q : Quantile) → (0 < percent_of q) × (percent_of q ≤ 100)
percent_bounds q50 = (omega arith, omega arith)
percent_bounds q95 = (omega arith, omega arith)
percent_bounds q99 = (omega arith, omega arith)

rank_bounds :
    (percent n : ℕ)
    → 0 < percent
    → percent ≤ 100
    → 0 < n
    → let i = (percent * n + 99) / 100 - 1 in
      (i < n) × (percent * n ≤ 100 * (i + 1)) × (100 * i < percent * n)
rank_bounds percent n pos small some_value =
    let product : 0 < percent * n = grind arith in
    let bound : percent * n ≤ 100 * n = grind arith in (omega arith, omega arith, omega arith)

-- For a list that is not empty `pct` returns at each of the quantiles .5, .95 and .99 a value such
-- that at least that share of the values is not greater, and less than that share is smaller: the
-- nearest-rank percentile.
pub pct-rank :
    (values : List ℕ) (q : Quantile)
    → 0 < length values
    → (v : ℕ) × (pct values q ≡ some v)
      × (percent_of q * length values ≤ 100 * at_most v values)
      × (100 * below v values < percent_of q * length values)
unfolding pct sorted
pct-rank values q some_value =
    let n = length values in
    let same = length-sort_by leb values in
    let (pos, small) = percent_bounds q in
    let (inside, least, most) = rank_bounds (percent_of q) n pos small some_value in
    let (v, e) = get_elem?-lt (sort_by leb values) (rank_index q n) (omega (arith, inside, same)) in
    let ranks =
      rank_of (sort_by leb values) (rank_index q n) v (sort_by-IsSorted leb leb-IsOrder values) e in
    let all_at = count_if-sort_by leb (λ x. leb x v) values in
    let all_below = count_if-sort_by leb (λ x. ltb x v) values in
    (v, e, omega (arith, ranks, all_at, least), omega (arith, ranks, all_below, most))
