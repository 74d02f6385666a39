-- ===== src/Workload/Orders.antt =====
-- The events of one order in the planned workload (experiments/isolation/trace.py).
use event_driven_order_syste.Base.{ℕ, ◌+◌, List, [], ◌∷◌, ◌==◌, nat_eq, if◌then◌else◌}
use event_driven_order_syste.Base.Lists.{keep}
use event_driven_order_syste.RunCheck.Run.{Planned}
use event_driven_order_syste.Workload.{Draws, Arrival, plan_order}

-- The planned events of one order, in the order of the trace.
abbrev pub of_order : (order_id : ℕ) → List Planned → List Planned
of_order order_id plans = keep (λ (p : Planned). p.event.order_id == order_id) plans

-- What `plan_all` has of an order: nothing, or the three steps of one arrival.
abbrev pub arrivals_of : Draws → (order_id : ℕ) → List Arrival → (count : ℕ) → List Planned
arrivals_of draws order_id [] count = []
arrivals_of draws order_id ((phase, t) ∷ rest) count =
    if (count + 1) == order_id
    then plan_order draws phase t order_id
    else arrivals_of draws order_id rest (count + 1)
