-- ===== src/Checker/Latest.antt =====
-- `latest` of experiments/checker.py holds the highest sequence number of each order.
use event_driven_order_syste.Base.{
  ℕ, max, ◌≡◌, String, Option, none, some, List, [], ◌∷◌, ◌==◌, ==_iff, nat_eq, string_eq, pair_eq,
  if◌then◌else◌, arith,
}
use event_driven_order_syste.Base.Dict.{Dict, lookup, lookup-insert}
use event_driven_order_syste.Event.{Event}
use event_driven_order_syste.Checker.{event_key, note_latest, latest_from, latest}

-- The sequence number of an event, 0 for none.
abbrev pub top : Option Event → ℕ
top none = 0
top (some e) = e.sequence

-- The highest sequence number of the order's events, 0 without one.
abbrev pub highest : String × ℕ → List Event → ℕ
highest key [] = 0
highest key (e ∷ es) = max (if event_key e == key then e.sequence else 0) (highest key es)

note_latest-top :
    (x : Event) (d : Dict (String × ℕ) Event) (key : String × ℕ)
    → top (lookup key (note_latest x d))
      ≡ max (if event_key x == key then x.sequence else 0) (top (lookup key d))
unfolding note_latest
note_latest-top x d key =
    ground (arith, lookup-insert (event_key x) key x d, ==_iff (event_key x) key)

latest_from-top :
    (es : List Event) (d : Dict (String × ℕ) Event) (key : String × ℕ)
    → top (lookup key (latest_from es d)) ≡ max (highest key es) (top (lookup key d))
unfolding latest_from
latest_from-top [] d key = omega arith
latest_from-top (e ∷ es) d key =
    omega (arith, latest_from-top es (note_latest e d) key, note_latest-top e d key)

-- The sequence number of the event kept for an order is the highest of the expected events of the
-- order, and 0 for an order without expected events.
pub latest-highest :
    (expected : List Event) (key : String × ℕ)
    → top (lookup key (latest expected)) ≡ highest key expected
unfolding lookup
latest-highest expected key = omega (arith, latest_from-top expected [] key)
