-- ===== src/RunCheck/Overlap/Bound.antt =====
-- `max_overlap` (experiments/isolation/check.py) is the least bound on the number of intervals that
-- are open at one time.
use event_driven_order_syste.Base.{
  ℕ, ◌+◌, ◌≤◌, ◌<◌, max, ◌≡◌, refl, ◌↔◌, Bool, true, false, ◌&&◌, List, [], ◌∷◌, arith, ltb, leb,
  nat_eq,
}
use event_driven_order_syste.Base.Int.{ℤ, pos, negsuc, pos_part, neg_part, ◌+ℤ◌, +ℤ_parts}
use event_driven_order_syste.Base.Lists.{All, count_if}
use event_driven_order_syste.Base.Sort.{
  IsOrder, IsSorted, sort_by, sort_by-IsSorted, count_if-sort_by,
}
use event_driven_order_syste.RunCheck.Overlap.{
  Delta, closes, opens, value_of, Interval, Point, points, point_le, sweep, max_overlap,
}

point_le_total :
    (t u : ℕ) (d f : Delta) → point_le (t, d) (u, f) ≡ false → point_le (u, f) (t, d) ≡ true
point_le_total t u d f h = ground arith

point_le_trans :
    (t u v : ℕ) (d f g : Delta)
    → point_le (t, d) (u, f) ≡ true
    → point_le (u, f) (v, g) ≡ true
    → point_le (t, d) (v, g) ≡ true
point_le_trans t u v d f g h k = ground arith

pub point_le-IsOrder : IsOrder point_le
point_le-IsOrder = record {
  total = λ p q h. point_le_total p.0 q.0 p.1 q.1 h;
  trans = λ p q r h k. point_le_trans p.0 q.0 r.0 p.1 q.1 r.1 h k;
}

-- Whether the interval covers time `t`.
abbrev pub is_open_at : ℕ → Interval → Bool
is_open_at t (start, end) = leb start t && ltb t end

abbrev pub open_at : ℕ → List Interval → ℕ
open_at t intervals = count_if (is_open_at t) intervals

-- An interval that does not end before it starts.
abbrev pub IsInterval : Interval → Type 0
IsInterval (start, end) = start ≤ end

abbrev opens_by : ℕ → Point → Bool
opens_by t (u, opens) = leb u t
opens_by t (u, closes) = false

abbrev closes_by : ℕ → Point → Bool
closes_by t (u, opens) = false
closes_by t (u, closes) = leb u t

-- The points up to time `t` tell how many intervals are open then.
count_if-points :
    (t : ℕ) (intervals : List Interval)
    → All IsInterval intervals
    → count_if (opens_by t) (points intervals)
      ≡ open_at t intervals + count_if (closes_by t) (points intervals)
unfolding points
count_if-points t [] h = omega arith
count_if-points t ((start, end) ∷ rest) h = ground (arith, count_if-points t rest h.1)

-- Behind a point in the sorted list nothing happens before its time.
opens_by-later :
    (t u : ℕ) (d : Delta) (ps : List Point)
    → t < u
    → All (λ q. point_le (u, d) q ≡ true) ps
    → count_if (opens_by t) ps ≡ 0
opens_by-later t u d [] lt h = refl
opens_by-later t u d ((v, opens) ∷ ps) lt h = ground (arith, opens_by-later t u d ps lt h.1)
opens_by-later t u d ((v, closes) ∷ ps) lt h = ground (arith, opens_by-later t u d ps lt h.1)

-- Behind a start no interval ends at the start's time or before.
closes_by-later :
    (u : ℕ) (ps : List Point)
    → All (λ q. point_le (u, opens) q ≡ true) ps
    → count_if (closes_by u) ps ≡ 0
closes_by-later u [] h = refl
closes_by-later u ((v, opens) ∷ ps) h = ground (arith, closes_by-later u ps h.1)
closes_by-later u ((v, closes) ∷ ps) h = ground (arith, closes_by-later u ps h.1)

sweep-ge : (ps : List Point) (current : ℤ) (peak : ℕ) → peak ≤ sweep ps current peak
unfolding sweep
sweep-ge [] current peak = omega arith
sweep-ge ((t, d) ∷ ps) current peak =
    omega (arith, sweep-ge ps (current +ℤ value_of d) (max peak (pos_part (current +ℤ value_of d))))

-- What is open at `t` is at most the peak of the sweep.
sweep-above :
    (t : ℕ) (ps : List Point) (current : ℤ) (peak : ℕ)
    → IsSorted point_le ps
    → pos_part current ≤ peak
    → pos_part current + count_if (opens_by t) ps
      ≤ sweep ps current peak + neg_part current + count_if (closes_by t) ps
unfolding sweep
sweep-above t [] current peak o h = omega arith
sweep-above t ((u, opens) ∷ ps) current peak o h = ground (
  arith,
  opens_by-later t u opens ps,
  o.0,
  sweep-ge ((u, opens) ∷ ps) current peak,
  +ℤ_parts current (pos 1),
  sweep-above t ps (current +ℤ pos 1) (max peak (pos_part (current +ℤ pos 1))) o.1 (omega arith),
)
sweep-above t ((u, closes) ∷ ps) current peak o h = ground (
  arith,
  opens_by-later t u closes ps,
  o.0,
  sweep-ge ((u, closes) ∷ ps) current peak,
  +ℤ_parts current (negsuc 0),
  sweep-above t ps (current +ℤ negsuc 0) (max peak (pos_part (current +ℤ negsuc 0))) o.1
      (omega arith),
)

fewer : (current : ℤ) → pos_part (current +ℤ negsuc 0) ≤ pos_part current
unfolding ◌+ℤ◌
fewer current = ground arith

more :
    (current : ℤ) (bound : ℕ)
    → pos_part current + 1 ≤ bound + neg_part current
    → pos_part (current +ℤ pos 1) ≤ bound
unfolding ◌+ℤ◌
more current bound h = ground arith

-- The peak of the sweep is at most any bound on what is open.
sweep-below :
    (bound : ℕ) (ps : List Point) (current : ℤ) (peak : ℕ)
    → IsSorted point_le ps
    → peak ≤ bound
    → pos_part current ≤ bound
    → ((t : ℕ)
        → pos_part current + count_if (opens_by t) ps
          ≤ bound + neg_part current + count_if (closes_by t) ps)
    → sweep ps current peak ≤ bound
unfolding sweep
sweep-below bound [] current peak o p c h = p
sweep-below bound ((u, opens) ∷ ps) current peak o p c h =
    let here = more current bound (ground (arith, h u, closes_by-later u ps o.0)) in
    sweep-below bound ps (current +ℤ pos 1) (max peak (pos_part (current +ℤ pos 1))) o.1
      (omega arith) here
      (λ t. ground (arith, h t, opens_by-later t u opens ps, o.0, +ℤ_parts current (pos 1)))
sweep-below bound ((u, closes) ∷ ps) current peak o p c h =
    let here : pos_part (current +ℤ negsuc 0) ≤ bound = omega (arith, fewer current) in
    sweep-below bound ps (current +ℤ negsuc 0) (max peak (pos_part (current +ℤ negsuc 0))) o.1
      (omega arith) here
      (λ t. ground (arith, h t, opens_by-later t u closes ps, o.0, +ℤ_parts current (negsuc 0)))

-- A number bounds `max_overlap` exactly when it bounds the number of intervals [start, end) that
-- cover a time, for every time. No interval ends before it starts.
pub max_overlap-le_iff :
    (intervals : List Interval) (bound : ℕ)
    → All IsInterval intervals
    → (max_overlap intervals ≤ bound) ↔ ((t : ℕ) → open_at t intervals ≤ bound)
unfolding max_overlap
max_overlap-le_iff intervals bound valid =
    let sorted = sort_by point_le (points intervals) in
    let ordered = sort_by-IsSorted point_le point_le-IsOrder (points intervals) in
    let opened = λ (t : ℕ). count_if-sort_by point_le (opens_by t) (points intervals) in
    let closed = λ (t : ℕ). count_if-sort_by point_le (closes_by t) (points intervals) in
    (
      λ h t. omega (
        arith,
        h,
        opened t,
        closed t,
        count_if-points t intervals valid,
        sweep-above t sorted (pos 0) 0 ordered (omega arith),
      ),
      λ h.
          sweep-below bound sorted (pos 0) 0 ordered (omega arith) (omega arith)
            (λ t. omega (arith, h t, opened t, closed t, count_if-points t intervals valid)),
    )
