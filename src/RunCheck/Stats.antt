-- ===== src/RunCheck/Stats.antt =====
-- `pct` of experiments/isolation/check.py, the same rule as `percentile` of experiments/run.py and
-- `_p` of experiments/isolation/suite.py, at the quantiles .5, .95 and .99 that the checker asks for:
-- there the float product `q * len(values)` has the ceiling of the exact one, which it has not at
-- every other quantile.
pub mod Rank
use event_driven_order_syste.Base.{ℕ, ◌+◌, ◌-◌, ◌*◌, ◌/◌, Option, List, leb}
use event_driven_order_syste.Base.Lists.{length, get_elem?}
use event_driven_order_syste.Base.Sort.{sort_by}

-- `sorted` of numbers.
unfoldable pub sorted : List ℕ → List ℕ
unfolding sort_by
sorted values = sort_by leb values

-- `.5`, `.95` and `.99`
pub data Quantile : Type 0 where
  q50 q95 q99 : Quantile

abbrev pub percent_of : Quantile → ℕ
percent_of q50 = 50
percent_of q95 = 95
percent_of q99 = 99

-- `max(0, math.ceil(q * n) - 1)`
abbrev pub rank_index : (q : Quantile) (n : ℕ) → ℕ
rank_index q n = (percent_of q * n + 99) / 100 - 1

unfoldable pub pct : List ℕ → Quantile → Option ℕ
unfolding sorted
pct values q = get_elem? (sorted values) (rank_index q (length values))
