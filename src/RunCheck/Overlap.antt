-- ===== src/RunCheck/Overlap.antt =====
-- `max_overlap` and `time_above` of experiments/isolation/check.py: a sweep over the ends of
-- half-open intervals [start, end), an end at t before a start at t.
pub mod Bound
use event_driven_order_syste.Base.{
  ℕ, ◌+◌, ◌-◌, ◌≡◌, refl, max, Bool, true, false, ◌&&◌, ◌||◌, Option, none, some, List, [], ◌∷◌,
  ltb, leb, ◌==◌, nat_eq, if◌then◌else◌,
}
use event_driven_order_syste.Base.Int.{ℤ, pos, negsuc, pos_part, ◌+ℤ◌, ltb_ℤ}
use event_driven_order_syste.Base.Sort.{sort_by}

-- The second part of a point, -1 or 1.
pub data Delta : Type 0 where
  closes opens : Delta

abbrev pub value_of : Delta → ℤ
value_of closes = negsuc 0
value_of opens = pos 1

abbrev pub Interval : Type 0
Interval = ℕ × ℕ

abbrev pub Point : Type 0
Point = ℕ × Delta

unfoldable pub points : List Interval → List Point
points [] = []
points ((start, end) ∷ rest) = (start, opens) ∷ (end, closes) ∷ points rest

abbrev pub delta_le : Delta → Delta → Bool
delta_le opens closes = false
delta_le opens opens = true
delta_le closes d = true

-- The order of the pairs `(time, delta)`.
abbrev pub point_le : Point → Point → Bool
point_le (t, d) (u, f) = if ltb t u then true else (t == u && delta_le d f)

-- The loop over the sorted points; the peak starts at 0 and only grows.
unfoldable pub sweep : List Point → (current : ℤ) → (peak : ℕ) → ℕ
unfolding ◌+ℤ◌
sweep [] current peak = peak
sweep ((t, d) ∷ rest) current peak =
    let current' = current +ℤ value_of d in sweep rest current' (max peak (pos_part current'))

unfoldable pub max_overlap : List Interval → ℕ
unfolding sweep points sort_by
max_overlap intervals = sweep (sort_by point_le (points intervals)) (pos 0) 0

-- The time since the last point, if the number of open intervals was above the limit.
abbrev over_for : Option ℕ → ℕ → Bool → ℕ
over_for none t above = 0
over_for (some last) t above = if above then t - last else 0

unfoldable pub sweep_above :
    (limit : ℕ) → List Point → (current : ℤ) → (last : Option ℕ) → (above : ℕ) → ℕ
unfolding ◌+ℤ◌
sweep_above limit [] current last above = above
sweep_above limit ((t, d) ∷ rest) current last above =
    sweep_above limit rest (current +ℤ value_of d) (some t)
      (above + over_for last t (ltb_ℤ (pos limit) current))

unfoldable pub time_above : List Interval → (limit : ℕ) → ℕ
unfolding sweep_above points sort_by
time_above intervals limit = sweep_above limit (sort_by point_le (points intervals)) (pos 0) none 0

max_overlap_test : max_overlap ((1, 5) ∷ (5, 9) ∷ (2, 6) ∷ (3, 3) ∷ []) ≡ 2
unfolding max_overlap
max_overlap_test = refl

time_above_test : time_above ((1, 5) ∷ (4, 9) ∷ (2, 6) ∷ []) 1 ≡ 4
unfolding time_above
time_above_test = refl
