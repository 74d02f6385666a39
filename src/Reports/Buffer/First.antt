-- ===== src/Reports/Buffer/First.antt =====
-- What the two loops of `buffer_timeline` (experiments/isolation/report.py) find.
use event_driven_order_syste.Base.{
  ℕ, ◌-◌, ◌≤◌, ◌≡◌, ◌∙◌, refl, String, Bool, true, false, Bool-cases, inl, inr, Option, none, some,
  List, [], ◌∷◌, map, arith,
}
use event_driven_order_syste.Base.Lists.{All, keep}
use event_driven_order_syste.Reports.Buffer.{
  BufferSample, Timeline, sum, fills, note_filled, see_sample, see_samples, Obligation, is_miss,
  earlier, first_miss,
}

-- The first of the values after one that is there already.
abbrev first_or : Option ℕ → List ℕ → Option ℕ
first_or (some t) ts = some t
first_or none [] = none
first_or none (t ∷ ts) = some t

first_or-nothing : (f : Option ℕ) → f ≡ first_or f []
first_or-nothing none = refl
first_or-nothing (some t) = refl

note_filled-true :
    (m : ℕ) (f : Option ℕ) (ts : List ℕ) → first_or (note_filled true m f) ts ≡ first_or f (m ∷ ts)
note_filled-true m none ts = refl
note_filled-true m (some t) ts = refl

note_filled-false : (m : ℕ) (f : Option ℕ) → note_filled false m f ≡ f
note_filled-false m none = refl
note_filled-false m (some t) = refl

-- The buffer filled at the first sample that fills it.
see_samples-first :
    (is_inbox : Bool) (limit from : ℕ) (samples : List BufferSample) (t : Timeline)
    → (see_samples is_inbox limit from samples t).filled
      ≡ first_or t.filled
          (map (λ (s : BufferSample). s.time - from) (keep (fills is_inbox limit from) samples))
unfolding see_samples
see_samples-first is_inbox limit from [] t = first_or-nothing t.filled
see_samples-first is_inbox limit from (s ∷ samples) t =
    let rest = see_samples-first is_inbox limit from samples (see_sample is_inbox limit from s t) in
    elim (Bool-cases (fills is_inbox limit from s)) [
      | inl b ↦ rest ∙ rw b (note_filled-true (s.time - from) t.filled _)
      | inr b ↦ rest ∙ rw b (rw (note_filled-false (s.time - from) t.filled) refl)
    ]

-- The peak of the inbox is reached by no sample above it.
see_samples-peak :
    (is_inbox : Bool) (limit from : ℕ) (samples : List BufferSample) (t : Timeline)
    → (t.peak_inbox ≤ (see_samples is_inbox limit from samples t).peak_inbox)
      × All
          (λ s. sum s.inbox_pending ≤ (see_samples is_inbox limit from samples t).peak_inbox)
          samples
unfolding see_samples
see_samples-peak is_inbox limit from [] t = (omega arith, tt)
see_samples-peak is_inbox limit from (s ∷ samples) t =
    let (above, all_above) =
      see_samples-peak is_inbox limit from samples (see_sample is_inbox limit from s t) in
    (omega (arith, above), (omega (arith, above), all_above))

-- A moment that no miss comes before; none when there is no miss.
abbrev IsFirst : (from : ℕ) → Option ℕ → List Obligation → Type 0
IsFirst from none os = os ≡ []
IsFirst from (some m) os = All (λ (o : Obligation). m ≤ o.created_at - from) os

first_miss-after :
    (fault_seller : String) (from : ℕ) (os : List Obligation) (m : ℕ)
    → (k : ℕ) × (first_miss fault_seller from os (some m) ≡ some k)
      × (k ≤ m)
      × All (λ (o : Obligation). k ≤ o.created_at - from) (keep (is_miss fault_seller from) os)
unfolding first_miss
first_miss-after fault_seller from [] m = (m, refl, omega arith, tt)
first_miss-after fault_seller from (o ∷ os) m = elim (Bool-cases (is_miss fault_seller from o)) [
  | inl b ↦
      let (k, e, below, all_below) =
        first_miss-after fault_seller from os (earlier (o.created_at - from) (some m)) in
      rw b (k, e, ground (arith, below), (ground (arith, below), all_below))
  | inr b ↦ rw b (first_miss-after fault_seller from os m)
]

-- The first miss is no later than that of any normal seller's event that missed its target since
-- the fault, and there is none exactly when no event did.
first_miss-IsFirst :
    (fault_seller : String) (from : ℕ) (os : List Obligation)
    → IsFirst from (first_miss fault_seller from os none) (keep (is_miss fault_seller from) os)
unfolding first_miss
first_miss-IsFirst fault_seller from [] = refl
first_miss-IsFirst fault_seller from (o ∷ os) = elim (Bool-cases (is_miss fault_seller from o)) [
  | inl b ↦
      let (k, e, below, all_below) = first_miss-after fault_seller from os (o.created_at - from) in
      rw (b, e) (below, all_below)
  | inr b ↦ rw b (first_miss-IsFirst fault_seller from os)
]
