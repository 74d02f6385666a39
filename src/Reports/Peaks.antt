-- ===== src/Reports/Peaks.antt =====
-- `peak_per_seller` of experiments/ops_report.py and `peak_concurrency` of
-- experiments/comparison_report.py.
pub mod Projected
use event_driven_order_syste.Base.{
  ℕ, zero, suc, max, String, Bool, true, false, not, Option, none, some, List, [], ◌∷◌, ◌++◌, map,
  ◌==◌, string_eq, if◌then◌else◌,
}
use event_driven_order_syste.Base.Dict.{Dict}
use event_driven_order_syste.Base.Group.{group_by}
use event_driven_order_syste.Base.Int.{ℤ, pos, pos_part, ◌+ℤ◌}
use event_driven_order_syste.Base.Sort.{sort_by}
use event_driven_order_syste.MockApi.Tables.{AttemptRow}
use event_driven_order_syste.RunCheck.Overlap.{
  Delta, opens, closes, value_of, Interval, Point, points, point_le, sweep, max_overlap,
}

-- `row['end_at'] or row['start_at']`
abbrev pub end_or_start : AttemptRow → ℕ
end_or_start row = elim row.end_at [
  | none ↦ row.start_at
  | some t ↦ elim t [ zero ↦ row.start_at | suc n ↦ suc n ]
]

abbrev pub span : AttemptRow → Interval
span row = (row.start_at, end_or_start row)

-- The two changes of each attempt, in a list for each seller; the loop over a sorted list is that
-- of `max_overlap`.
unfoldable pub peak_per_seller : List AttemptRow → Dict String ℕ
unfolding max_overlap
peak_per_seller attempts =
    map (λ (seller : String × List AttemptRow). (seller.0, max_overlap (map span seller.1)))
      (group_by (λ (row : AttemptRow). row.seller_id) attempts)

-- A change, with the group of its seller: the slow one or the others.
pub record Change : Type 0 where
  pub point : Point
  pub is_slow : Bool

abbrev pub is_slow_row : AttemptRow → Bool
is_slow_row row = row.seller_id == "slow"

unfoldable pub changes : List AttemptRow → List Change
changes [] = []
changes (row ∷ rows) =
    record { point = (row.start_at, opens); is_slow = is_slow_row row }
    ∷ record { point = (end_or_start row, closes); is_slow = is_slow_row row }
    ∷ changes rows

abbrev pub change_le : Change → Change → Bool
change_le a b = point_le a.point b.point

-- `current` and `peak`, of the slow seller and of the others.
pub record Peaks : Type 0 where
  pub current_slow : ℤ
  pub current_normal : ℤ
  pub peak_slow : ℕ
  pub peak_normal : ℕ

unfoldable pub step : Change → Peaks → Peaks
unfolding ◌+ℤ◌
step c p =
    if c.is_slow
    then record p {
      current_slow = p.current_slow +ℤ value_of c.point.1;
      peak_slow = max p.peak_slow (pos_part (p.current_slow +ℤ value_of c.point.1));
    }
    else record p {
      current_normal = p.current_normal +ℤ value_of c.point.1;
      peak_normal = max p.peak_normal (pos_part (p.current_normal +ℤ value_of c.point.1));
    }

unfoldable pub go_over : List Change → Peaks → Peaks
unfolding step
go_over [] p = p
go_over (c ∷ cs) p = go_over cs (step c p)

abbrev pub no_calls : Peaks
no_calls = record { current_slow = pos 0; current_normal = pos 0; peak_slow = 0; peak_normal = 0 }

unfoldable pub peak_concurrency : List AttemptRow → Peaks
unfolding go_over changes sort_by
peak_concurrency attempts = go_over (sort_by change_le (changes attempts)) no_calls
