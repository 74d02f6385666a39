-- ===== src/RunCheck/Latency/Verdict.antt =====
-- The latency verdict (experiments/isolation/check.py) against the share of late events.
use event_driven_order_syste.Base.{
  ℕ, ◌+◌, ◌*◌, ◌≤◌, ◌<◌, ◌≡◌, refl, ◌∙◌, ap, inl, inr, String, Bool, true, false, not, ◌&&◌, none,
  some, List, [], ◌∷◌, map, leb, ◌==◌, string_eq, pair_eq, arith, if◌then◌else◌, Bool-cases, HasEq,
}
use event_driven_order_syste.Base.Dict.{Dict, lookup}
use event_driven_order_syste.Base.Group.{group_by, lookup-group_by}
use event_driven_order_syste.Base.Lists.{All, all_iff, length, count_if, keep, is_empty}
use event_driven_order_syste.RunCheck.Latency.{
  Member, is_late, entry_of, cohort_of, latency, entry_meets, latency_passed,
}

lookup-map :
    {K V W : Type 0} ⦃e : HasEq K⦄ (f : V → W) (k : K) (d : Dict K V)
    → lookup k (map (λ (entry : K × V). (entry.0, f entry.1)) d)
      ≡ elim (lookup k d) [ none ↦ none | some v ↦ some (f v) ]
unfolding lookup
lookup-map f k [] = refl
lookup-map ⦃e⦄ f k ((j, v) ∷ d) = elim (Bool-cases (j == k)) [
  | inl h ↦ rw h refl
  | inr h ↦ rw (h, lookup-map f k d) refl
]

-- The accepted events of the normal sellers that are planned in a phase.
abbrev pub cohort : (fault_seller phase : String) → List Member → List Member
cohort fault_seller phase =
    keep (λ (m : Member). (m.phase == phase) && not (m.seller == fault_seller))

keep-ext :
    {A : Type 0} (p q : A → Bool) (xs : List A) → ((x : A) → p x ≡ q x) → keep p xs ≡ keep q xs
keep-ext p q [] h = refl
keep-ext p q (x ∷ xs) h = rw (h x, keep-ext p q xs h) refl

is_normal :
    (fault_seller phase : String) (m : Member)
    → (cohort_of fault_seller m == (phase, "normal"))
      ≡ ((m.phase == phase) && not (m.seller == fault_seller))
is_normal fault_seller phase m = elim (Bool-cases (m.seller == fault_seller)) [
  | inl e ↦ rw e refl
  | inr e ↦ rw e refl
]

-- Rounding to five places gives a nearest rate.
abbrev pub IsNearest : ((misses n : ℕ) → ℕ) → Type 0
IsNearest round5 =
    (misses n : ℕ)
    → 0 < n
    → (2 * (round5 misses n * n) ≤ 200000 * misses + n)
      × (200000 * misses ≤ 2 * (round5 misses n * n) + n)

-- The share of late events of a cohort: the bound that a passed verdict gives, and the one that is
-- enough for it.
abbrev pub MeetsAfterRounding : List Member → Type 0
MeetsAfterRounding c = (0 < length c) × (200000 * count_if is_late c ≤ 2001 * length c)

abbrev pub Meets : List Member → Type 0
Meets c = (0 < length c) × (100 * count_if is_late c ≤ length c)

module _ (round5 : (misses n : ℕ) → ℕ) (nearest : IsNearest round5) where
  rate_at_most : (misses n : ℕ) → 0 < n → round5 misses n ≤ 1000 → 200000 * misses ≤ 2001 * n
  rate_at_most misses n pos h =
      let scaled : round5 misses n * n ≤ 1000 * n = grind arith in
      let (low, high) = nearest misses n pos in omega (arith, scaled, high)

  rate_is_low : (misses n : ℕ) → 0 < n → 100 * misses ≤ n → round5 misses n ≤ 1000
  rate_is_low misses n pos h =
      let (low, high) = nearest misses n pos in
      elim (Bool-cases (leb (round5 misses n) 1000)) [
        | inl e ↦ ground (arith, e)
        | inr e ↦
            let above : 1001 ≤ round5 misses n = ground (arith, e) in
            let scaled : 1001 * n ≤ round5 misses n * n = grind arith in
            absurd (omega (arith, scaled, low))
      ]

  -- The entry of a phase is that of its cohort, when that is not empty.
  lookup-latency :
      (fault_seller phase : String) (ms : List Member)
      → lookup (phase, "normal") (latency round5 fault_seller ms) ≡ (
          if is_empty (cohort fault_seller phase ms)
          then none
          else some (entry_of round5 (cohort fault_seller phase ms)))
  unfolding latency
  lookup-latency fault_seller phase ms =
      let key : String × String = (phase, "normal") in
      let same =
        keep-ext (λ (m : Member). cohort_of fault_seller m == key) _ ms
          (is_normal fault_seller phase) in
      lookup-map (entry_of round5) key (group_by (cohort_of fault_seller) ms)
      ∙ rw (lookup-group_by (cohort_of fault_seller) key ms)
          (rw same (pushed (cohort fault_seller phase ms)))
    where
      pushed :
          (c : List Member)
          → (elim (if is_empty c then none else some c) [
            | none ↦ none
            | some v ↦ some (entry_of round5 v)
          ])
            ≡ (if is_empty c then none else some (entry_of round5 c))
      pushed [] = refl
      pushed (m ∷ ms) = refl

  entry_verdict :
      (c : List Member)
      → let met = entry_meets (if is_empty c then none else some (entry_of round5 c)) in
        (met ≡ true → MeetsAfterRounding c) × (Meets c → met ≡ true)
  unfolding entry_of
  entry_verdict [] = (λ h. absurd (cc h), λ h. absurd (omega (arith, h.0)))
  entry_verdict (m ∷ rest) =
      let n = length (m ∷ rest) in
      let misses = count_if is_late (m ∷ rest) in
      let pos : 0 < n = omega arith in
      (
        λ h. (pos, rate_at_most misses n pos (ground (arith, h))),
        λ h. ground (arith, rate_is_low misses n pos h.1),
      )

  entry_meets-lem :
      (fault_seller phase : String) (ms : List Member)
      → let met = entry_meets (lookup (phase, "normal") (latency round5 fault_seller ms)) in
        (met ≡ true → MeetsAfterRounding (cohort fault_seller phase ms))
        × (Meets (cohort fault_seller phase ms) → met ≡ true)
  entry_meets-lem fault_seller phase ms =
      rw (lookup-latency fault_seller phase ms) (entry_verdict (cohort fault_seller phase ms))

  module _ (fault_seller : String) (ms : List Member) where
    entry_met : String → Bool
    entry_met p = entry_meets (lookup (p, "normal") (latency round5 fault_seller ms))

    all_met :
        (phases : List String)
        → All (λ p. entry_met p ≡ true) phases
        → All (λ p. MeetsAfterRounding (cohort fault_seller p ms)) phases
    unfolding entry_met
    all_met [] h = tt
    all_met (p ∷ ps) h = ((entry_meets-lem fault_seller p ms).0 h.0, all_met ps h.1)

    all_meet :
        (phases : List String)
        → All (λ p. Meets (cohort fault_seller p ms)) phases
        → All (λ p. entry_met p ≡ true) phases
    unfolding entry_met
    all_meet [] h = tt
    all_meet (p ∷ ps) h = ((entry_meets-lem fault_seller p ms).1 h.0, all_meet ps h.1)

    -- With a rate that is rounded to a nearest one of five places, the latency verdict on judged
    -- phases passes when each of them has an accepted event of a normal seller and at most 1% of
    -- these are late or have no effect; and when it passes, each has one and at most 1.0005% are.
    -- Without judged phases there is no verdict.
    pub latency_passed-lem :
        (phases : List String)
        → (latency_passed round5 fault_seller [] ms ≡ none)
          × (latency_passed round5 fault_seller phases ms ≡ some true
              → All (λ p. MeetsAfterRounding (cohort fault_seller p ms)) phases)
          × (is_empty phases ≡ false
              → All (λ p. Meets (cohort fault_seller p ms)) phases
              → latency_passed round5 fault_seller phases ms ≡ some true)
    unfolding latency_passed entry_met
    latency_passed-lem [] = (refl, λ h. tt, λ h. absurd (cc h))
    latency_passed-lem (p ∷ ps) = (
      refl,
      λ h. all_met (p ∷ ps) ((all_iff entry_met (p ∷ ps)).0 (cc h)),
      λ _ h. ap some ((all_iff entry_met (p ∷ ps)).1 (all_meet (p ∷ ps) h)),
    )
