-- ===== src/BudgetAudit/Orders.antt =====
-- The overlapping operations of one order that experiments/verify_budgets.py counts.
use event_driven_order_syste.Base.{
  ◌≤◌, ◌<◌, ◌≢◌, ◌≡◌, ==_iff, false, List, [], ◌∷◌, arith, ◌==◌, nat_eq, string_eq, inl, inr,
  Bool-cases,
}
use event_driven_order_syste.Base.Lists.{All, count_if}
use event_driven_order_syste.MockApi.Tables.{AttemptRow}
use event_driven_order_syste.BudgetAudit.{
  calls_of, overlaps, overlaps_from, end_or, same_order_overlaps,
}

-- No operation of an order starts strictly inside another one of the order; a call without an end
-- counts as ended at once.
abbrev pub StartsOutside : (first second : AttemptRow) → Type 0
StartsOutside first second =
    first.order_id ≡ second.order_id
    → first.event_id ≢ second.event_id
    → first.start_at < second.start_at
    → end_or first.end_at 0 ≤ second.start_at

abbrev pub OneAtATime : List AttemptRow → Type 0
OneAtATime requests = All (λ first. All (StartsOutside first) requests) requests

overlaps-outside :
    (first second : AttemptRow) → overlaps first second ≡ false → StartsOutside first second
overlaps-outside first second h = λ same other later.
    let order = (==_iff first.order_id second.order_id).1 same in
    let events : (first.event_id == second.event_id) ≡ false =
      elim (Bool-cases (first.event_id == second.event_id)) [
        | inl e ↦ absurd (other ((==_iff first.event_id second.event_id).0 e))
        | inr e ↦ e
      ] in
    ground (arith, h, order, events, later)

count_if-overlaps :
    (first : AttemptRow) (requests : List AttemptRow)
    → count_if (overlaps first) requests ≡ 0
    → All (StartsOutside first) requests
count_if-overlaps first [] h = tt
count_if-overlaps first (second ∷ requests) h = elim (Bool-cases (overlaps first second)) [
  | inl e ↦ absurd (ground (arith, h, e))
  | inr e ↦
      (overlaps-outside first second e, count_if-overlaps first requests (ground (arith, h, e)))
]

overlaps_from-none :
    (requests rest : List AttemptRow)
    → overlaps_from requests rest ≡ 0
    → All (λ first. All (StartsOutside first) requests) rest
unfolding overlaps_from
overlaps_from-none requests [] h = tt
overlaps_from-none requests (first ∷ rest) h = (
  count_if-overlaps first requests (omega (arith, h)),
  overlaps_from-none requests rest (omega (arith, h)),
)

pub overlaps_none :
    (attempts : List AttemptRow)
    → same_order_overlaps attempts ≡ 0
    → OneAtATime (calls_of "normal" attempts) × OneAtATime (calls_of "slow" attempts)
unfolding same_order_overlaps
overlaps_none attempts h = (
  overlaps_from-none (calls_of "normal" attempts) (calls_of "normal" attempts) (omega (arith, h)),
  overlaps_from-none (calls_of "slow" attempts) (calls_of "slow" attempts) (omega (arith, h)),
)
