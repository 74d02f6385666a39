-- ===== src/Workload/Phases.antt =====
-- The phase of an event: `phase_bounds` (experiments/isolation/trace.py) and the cohort that
-- `check` (experiments/isolation/check.py) derives from the bounds.
use event_driven_order_syste.Base.{
  ℕ, ◌+◌, ◌*◌, ◌≡◌, ◌∙◌, refl, String, false, some, List, [], ◌∷◌, ◌++◌, ◌==◌, ==_iff, nat_eq,
  string_eq, arith,
}
use event_driven_order_syste.Base.Dict.{Dict, lookup, lookup-insert}
use event_driven_order_syste.Base.Lists.{All}
use event_driven_order_syste.Workload.{Phase, bounds_from, phase_bounds}

bounds_from-keeps :
    (phases : List Phase) (start : ℕ) (bounds : Dict String (ℕ × ℕ)) (name : String)
    → All (λ (p : Phase). (p.name == name) ≡ false) phases
    → lookup name (bounds_from phases start bounds) ≡ lookup name bounds
unfolding bounds_from
bounds_from-keeps [] start bounds name h = refl
bounds_from-keeps (p ∷ ps) start bounds name h =
    bounds_from-keeps ps _ _ name h.1 ∙ (lookup-insert p.name name _ bounds ∙ rw h.0 refl)

-- The seconds of the phases before.
abbrev pub seconds_of : List Phase → ℕ
seconds_of [] = 0
seconds_of (p ∷ ps) = p.seconds + seconds_of ps

bounds_from-lookup :
    (before : List Phase) (p : Phase) (after : List Phase) (start : ℕ)
    (bounds : Dict String (ℕ × ℕ))
    → All (λ (q : Phase). (q.name == p.name) ≡ false) after
    → lookup p.name (bounds_from (before ++ p ∷ after) start bounds)
      ≡ some ((start + seconds_of before) * 1000, (start + seconds_of before + p.seconds) * 1000)
unfolding bounds_from
bounds_from-lookup [] p after start bounds h =
    bounds_from-keeps after _ _ p.name h
    ∙ (lookup-insert p.name p.name _ bounds ∙ ground (arith, ==_iff p.name p.name))
bounds_from-lookup (q ∷ before) p after start bounds h =
    bounds_from-lookup before p after (start + q.seconds) _ h ∙ ground arith

-- A phase whose name is not used again begins where the phases before it end, and ends its own
-- seconds later.
pub phase_bounds-lookup :
    (before : List Phase) (p : Phase) (after : List Phase)
    → All (λ (q : Phase). (q.name == p.name) ≡ false) after
    → lookup p.name (phase_bounds (before ++ p ∷ after))
      ≡ some (seconds_of before * 1000, seconds_of (before ++ p ∷ []) * 1000)
unfolding phase_bounds
phase_bounds-lookup before p after h =
    bounds_from-lookup before p after 0 [] h ∙ ground (arith, seconds_of-snoc before p)
  where
    seconds_of-snoc :
        (before : List Phase) (p : Phase)
        → seconds_of (before ++ p ∷ []) ≡ seconds_of before + p.seconds
    seconds_of-snoc [] p = omega arith
    seconds_of-snoc (q ∷ qs) p = omega (arith, seconds_of-snoc qs p)
