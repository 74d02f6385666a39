-- ===== src/Reports/Peaks/Projected.antt =====
-- The peaks of two groups in one pass (experiments/comparison_report.py) are those of each group.
use event_driven_order_syste.Base.{
  ◌≡◌, refl, ◌∙◌, ap, Bool, not, List, [], ◌∷◌, map, inl, inr, Bool-cases,
}
use event_driven_order_syste.Base.Int.{pos}
use event_driven_order_syste.Base.Lists.{keep}
use event_driven_order_syste.Base.Sort.{sort_by, insert_by, IsOrder, keep-sort_by}
use event_driven_order_syste.MockApi.Tables.{AttemptRow}
use event_driven_order_syste.RunCheck.Overlap.{
  opens, closes, Point, points, point_le, sweep, max_overlap,
}
use event_driven_order_syste.RunCheck.Overlap.Bound.{point_le-IsOrder}
use event_driven_order_syste.Reports.Peaks.{
  span, end_or_start, Change, is_slow_row, changes, change_le, Peaks, step, go_over, no_calls,
  peak_concurrency,
}

module _ {A B : Type 0} (le : A → A → Bool) (le' : B → B → Bool) (f : A → B)
    (same : (a b : A) → le a b ≡ le' (f a) (f b)) where
  map-insert_by : (x : A) (xs : List A) → map f (insert_by le x xs) ≡ insert_by le' (f x) (map f xs)
  unfolding insert_by
  map-insert_by x [] = refl
  map-insert_by x (y ∷ ys) = elim (Bool-cases (le x y)) [
    | inl e ↦ rw (e, ← same x y, e) refl
    | inr e ↦ rw (e, ← same x y, e) (ap (◌∷◌ (f y)) (map-insert_by x ys))
  ]

  map-sort_by : (xs : List A) → map f (sort_by le xs) ≡ sort_by le' (map f xs)
  unfolding sort_by
  map-sort_by [] = refl
  map-sort_by (x ∷ xs) = map-insert_by x (sort_by le xs) ∙ ap (insert_by le' (f x)) (map-sort_by xs)

abbrev point_of : Change → Point
point_of c = c.point

abbrev is_normal : Change → Bool
is_normal c = not c.is_slow

abbrev is_slow_change : Change → Bool
is_slow_change c = c.is_slow

abbrev is_normal_row : AttemptRow → Bool
is_normal_row row = not (is_slow_row row)

slow_points :
    (rows : List AttemptRow)
    → map point_of (keep is_slow_change (changes rows)) ≡ points (map span (keep is_slow_row rows))
unfolding changes points
slow_points [] = refl
slow_points (row ∷ rows) = elim (Bool-cases (is_slow_row row)) [
  | inl e ↦
      rw e (ap (λ ps. (row.start_at, opens) ∷ (end_or_start row, closes) ∷ ps) (slow_points rows))
  | inr e ↦ rw e (slow_points rows)
]

go_over-slow :
    (cs : List Change) (p : Peaks)
    → (go_over cs p).peak_slow
      ≡ sweep (map point_of (keep is_slow_change cs)) p.current_slow p.peak_slow
unfolding go_over step sweep
go_over-slow [] p = refl
go_over-slow (c ∷ cs) p = elim (Bool-cases c.is_slow) [
  | inl e ↦ go_over-slow cs (step c p) ∙ rw (step, e) refl
  | inr e ↦ go_over-slow cs (step c p) ∙ rw (step, e) refl
]

normal_points :
    (rows : List AttemptRow)
    → map point_of (keep is_normal (changes rows)) ≡ points (map span (keep is_normal_row rows))
unfolding changes points
normal_points [] = refl
normal_points (row ∷ rows) = elim (Bool-cases (is_slow_row row)) [
  | inl e ↦ rw e (normal_points rows)
  | inr e ↦
      rw e (ap (λ ps. (row.start_at, opens) ∷ (end_or_start row, closes) ∷ ps) (normal_points rows))
]

go_over-normal :
    (cs : List Change) (p : Peaks)
    → (go_over cs p).peak_normal
      ≡ sweep (map point_of (keep is_normal cs)) p.current_normal p.peak_normal
unfolding go_over step sweep
go_over-normal [] p = refl
go_over-normal (c ∷ cs) p = elim (Bool-cases c.is_slow) [
  | inl e ↦ go_over-normal cs (step c p) ∙ rw (step, e) refl
  | inr e ↦ go_over-normal cs (step c p) ∙ rw (step, e) refl
]

change_le-IsOrder : IsOrder change_le
change_le-IsOrder = record {
  total = λ a b. point_le-IsOrder.total a.point b.point;
  trans = λ a b c. point_le-IsOrder.trans a.point b.point c.point;
}

-- A group's changes of the sorted list are its sorted points.
projected :
    (p : Change → Bool) (cs : List Change)
    → map point_of (keep p (sort_by change_le cs)) ≡ sort_by point_le (map point_of (keep p cs))
projected p cs =
    ap (map point_of) (keep-sort_by change_le change_le-IsOrder p cs)
    ∙ map-sort_by change_le point_le point_of (λ a b. refl) (keep p cs)

-- The peaks of the slow seller and of the other sellers, counted in one pass over the changes of
-- all attempts, are the highest numbers of overlapping calls of the slow seller's attempts and of
-- the other ones.
pub peak_concurrency-max_overlap :
    (attempts : List AttemptRow)
    → let peaks = peak_concurrency attempts in
      (peaks.peak_slow ≡ max_overlap (map span (keep (λ row. is_slow_row row) attempts)))
      × (peaks.peak_normal ≡ max_overlap (map span (keep (λ row. not (is_slow_row row)) attempts)))
unfolding peak_concurrency max_overlap
peak_concurrency-max_overlap attempts =
    let sorted = sort_by change_le (changes attempts) in
    (
      go_over-slow sorted no_calls
          ∙ ap (λ ps. sweep ps (pos 0) 0)
              (projected is_slow_change (changes attempts)
                ∙ ap (sort_by point_le) (slow_points attempts)),
      go_over-normal sorted no_calls
          ∙ ap (λ ps. sweep ps (pos 0) 0)
              (projected is_normal (changes attempts)
                ∙ ap (sort_by point_le) (normal_points attempts)),
    )
