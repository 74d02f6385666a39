-- ===== src/Suite/Pick/Kafka.antt =====
-- The Kafka structure that `pick` (experiments/isolation/suite.py) selects.
use event_driven_order_syste.Base.{
  ℕ, ◌-◌, ◌/◌, ◌≡◌, refl, sym, ◌∙◌, ◌⊎◌, inl, inr, true, false, ◌||◌, none, some, List, [], ◌∷◌,
  map, arith, Bool-cases, leb,
}
use event_driven_order_syste.Base.Lists.{length, is_empty, is_empty-map}
use event_driven_order_syste.Base.Opt.{present}
use event_driven_order_syste.Base.Sort.{sort_by, insert_by, length-sort_by}
use event_driven_order_syste.RunCheck.Stats.{sorted}
use event_driven_order_syste.RunCheck.Stats.Rank.{get_elem?-lt}
use event_driven_order_syste.Suite.Specs.{Candidate, kafka_bucket, kafka_retry}
use event_driven_order_syste.Suite.Pick.{
  Floats, Median, Runs, judged_miss, median, Miss, rate, safe, median_miss, Key, key_le,
  bucket_first, kafka_candidates, key_of, kafka_choice, misses_are_close, best_of_sorted,
  best_kafka,
}

-- A candidate with the checks of a run.
abbrev pub HasRun : Runs → Type 0
HasRun runs = is_empty (present runs) ≡ false

median-some : (values : List ℕ) → is_empty values ≡ false → (m : Median) × (median values ≡ some m)
unfolding median sorted
median-some [] h = absurd cc
median-some (v ∷ vs) h =
    let values = v ∷ vs in
    let same = length-sort_by leb values in
    let (low, e₁) = get_elem?-lt (sort_by leb values) ((length values - 1) / 2) (omega arith) in
    let (high, e₂) = get_elem?-lt (sort_by leb values) (length values / 2) (omega arith) in
    ((low, high), rw (e₁, e₂) refl)

pub median_miss-some :
    (runs : Runs) → HasRun runs → (m : Median) × (median_miss runs ≡ some (rate m))
unfolding median_miss
median_miss-some [] h = absurd cc
median_miss-some (r ∷ rs) h =
    let (m, e) =
      median-some (map judged_miss (present (r ∷ rs)))
        (is_empty-map judged_miss (present (r ∷ rs)) ∙ h) in
    (m, rw e refl)

pub median_miss-none :
    (runs : Runs) → is_empty runs ≡ false → present runs ≡ [] → median_miss runs ≡ none
unfolding median_miss median sorted sort_by
median_miss-none [] h k = absurd cc
median_miss-none (r ∷ rs) h k = rw k refl

module _ (floats : Floats) (results : Candidate → Runs) where
  key_of-some :
      (prefer : Candidate → ℕ) (c : Candidate)
      → HasRun (results c)
      → (m : Median) × (key_of floats results prefer c
          ≡ some record { miss = rate m; preference = prefer c; candidate = c })
  unfolding key_of
  key_of-some prefer c h = let (m, e) = median_miss-some (results c) h in (m, rw e refl)

  pub kafka_choice_both :
      safe (results kafka_bucket) ≡ safe (results kafka_retry)
      → kafka_choice floats results ≡ kafka_candidates
  unfolding kafka_choice
  kafka_choice_both e = elim (Bool-cases (safe (results kafka_retry))) [
    | inl t ↦ rw (e, t) refl
    | inr t ↦ rw (e, t) refl
  ]

  kafka_choice_one :
      (safe (results kafka_bucket) ≡ true
        → safe (results kafka_retry) ≡ false
        → kafka_choice floats results ≡ kafka_bucket ∷ [])
      × (safe (results kafka_bucket) ≡ false
          → safe (results kafka_retry) ≡ true
          → kafka_choice floats results ≡ kafka_retry ∷ [])
  unfolding kafka_choice
  kafka_choice_one = (λ s t. rw (s, t) refl, λ s t. rw (s, t) refl)

  abbrev pub IsKafka : Candidate → Type 0
  IsKafka c = (c ≡ kafka_bucket) ⊎ (c ≡ kafka_retry)

  abbrev pub key : Miss → (Candidate → ℕ) → Candidate → Key
  key m prefer c = record { miss = m; preference = prefer c; candidate = c }

  best_of_two :
      (a b : Key)
      → IsKafka a.candidate
      → IsKafka b.candidate
      → (best : Candidate) × (best_of_sorted floats results (sort_by (key_le floats) (a ∷ b ∷ []))
          ≡ some best)
        × IsKafka best
  unfolding sort_by insert_by
  best_of_two a b h k = elim (Bool-cases (key_le floats a b)) [
    | inl e ↦ elim (Bool-cases (misses_are_close floats results a.miss b.miss)) [
      | inl f ↦ (kafka_bucket, rw (e, f) refl, inl refl)
      | inr f ↦ (a.candidate, rw (e, f) refl, h)
    ]
    | inr e ↦ elim (Bool-cases (misses_are_close floats results b.miss a.miss)) [
      | inl f ↦ (kafka_bucket, rw (e, f) refl, inl refl)
      | inr f ↦ (b.candidate, rw (e, f) refl, k)
    ]
  ]

  -- A Kafka structure, which is safe when one of them is.
  pub record IsKafkaChoice (best : Candidate) : Type 0 where
    pub kafka : IsKafka best
    pub kept_safe :
        (safe (results kafka_bucket) || safe (results kafka_retry)) ≡ true
        → safe (results best) ≡ true

  pub best_kafka-some :
      HasRun (results kafka_bucket)
      → HasRun (results kafka_retry)
      → (best : Candidate) × (best_kafka floats results ≡ some best) × IsKafkaChoice best
  unfolding best_kafka sort_by insert_by
  best_kafka-some b r =
      let (m, e₁) = key_of-some bucket_first kafka_bucket b in
      let (n, e₂) = key_of-some bucket_first kafka_retry r in
      let (best, e₃, h) =
        best_of_two (key (rate m) bucket_first kafka_bucket) (key (rate n) bucket_first kafka_retry)
          (inl refl) (inr refl) in
      elim (Bool-cases (safe (results kafka_bucket))) [
        | inl s ↦ elim (Bool-cases (safe (results kafka_retry))) [
          | inl t ↦ (
            best,
            rw (kafka_choice_both (s ∙ sym t), e₁, e₂) e₃,
            record { kafka = h; kept_safe = λ _. elim h [ inl p ↦ rw p s | inr p ↦ rw p t ] },
          )
          | inr t ↦ (
            kafka_bucket,
            rw (kafka_choice_one.0 s t, e₁) refl,
            record { kafka = inl refl; kept_safe = λ _. s },
          )
        ]
        | inr s ↦ elim (Bool-cases (safe (results kafka_retry))) [
          | inl t ↦ (
            kafka_retry,
            rw (kafka_choice_one.1 s t, e₂) refl,
            record { kafka = inr refl; kept_safe = λ _. t },
          )
          | inr t ↦ (
            best,
            rw (kafka_choice_both (s ∙ sym t), e₁, e₂) e₃,
            record { kafka = h; kept_safe = λ u. absurd (ground (arith, s, t)) },
          )
        ]
      ]
