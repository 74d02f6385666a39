-- ===== src/RunCheck/Evidence/Valid.antt =====
-- The validity of the evidence (experiments/isolation/check.py) in terms of clocks and calls.
use event_driven_order_syste.Base.{
  ℕ, ◌+◌, ◌<◌, ◌⊎◌, string_eq, ◌≤◌, ◌≡◌, Option, none, some, List, [], ◌∷◌,
}
use event_driven_order_syste.RunCheck.Evidence.{Fault}
use event_driven_order_syste.RunCheck.Run.{Run}
use event_driven_order_syste.MockApi.Tables.{AttemptRow}

-- A finished call of the fault's seller that began in the fault, more than 3 s before its end, and
-- took 2.9 s at least.
pub record IsDelayed (f : Fault) (a : AttemptRow) : Type 0 where
  pub seller : a.seller_id ≡ f.seller
  pub after_start : f.from ≤ a.start_at
  pub before_end : a.start_at + 3000 < f.to
  pub ended : (end : ℕ) × (a.end_at ≡ some end) × (0 < end) × (a.start_at + 2900 ≤ end)

abbrev pub HasDelayed : Fault → List AttemptRow → Type 0
HasDelayed f [] = ⊥
HasDelayed f (a ∷ attempts) = IsDelayed f a ⊎ HasDelayed f attempts

abbrev pub FaultSeen : Run → Option Fault → Type 0
FaultSeen r none = Unit
FaultSeen r (some f) = HasDelayed f r.attempts
