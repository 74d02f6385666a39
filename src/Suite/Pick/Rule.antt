-- ===== src/Suite/Pick/Rule.antt =====
-- The selection rule (`pick` of experiments/isolation/suite.py): what it selects and when it raises.
use event_driven_order_syste.Base.{
  ℕ, ◌≡◌, refl, ap, sym, subst, ◌∙◌, inl, inr, Bool, true, false, none, some, [], arith, not,
  if◌then◌else◌, Bool-cases, Option-cases,
}
use event_driven_order_syste.Base.Lists.{is_empty}
use event_driven_order_syste.Base.Opt.{present}
use event_driven_order_syste.Suite.Specs.{Candidate, kafka_bucket, kafka_retry, db_inbox}
use event_driven_order_syste.Suite.Pick.{
  Floats, Median, Runs, rate, safe, median_miss, meets, key_le, bucket_first, inbox_last, key_of,
  best_kafka, final_choice, pick,
}
use event_driven_order_syste.Suite.Pick.Kafka.{
  HasRun, median_miss-some, median_miss-none, IsKafka, IsKafkaChoice, key, best_kafka-some,
  kafka_choice_both,
}

if_not : (b : Bool) (x y : Candidate) → (if not b then x else y) ≡ (if b then y else x)
if_not true x y = refl
if_not false x y = refl

module _ (floats : Floats) (results : Candidate → Runs) where
  -- The final structure against the Kafka structure `best`.
  pub record IsFinal (best final : Candidate) : Type 0 where
    pub best_meets : meets (results best) ≡ true → final ≡ best
    pub inbox_meets :
        meets (results best) ≡ false → meets (results db_inbox) ≡ true → final ≡ db_inbox
    pub lowest :
        (m n : Median)
        → meets (results best) ≡ false
        → meets (results db_inbox) ≡ false
        → median_miss (results best) ≡ some (rate m)
        → median_miss (results db_inbox) ≡ some (rate n)
        → final ≡ (if floats.lt n m then db_inbox else best)

  key_le-rates :
      (m n : Median) (best : Candidate)
      → IsKafka floats results best
      → key_le floats
          (key floats results (rate m) inbox_last best)
          (key floats results (rate n) inbox_last db_inbox)
        ≡ not (floats.lt n m)
  key_le-rates m n kafka_bucket h = ground arith
  key_le-rates m n kafka_retry h = ground arith
  key_le-rates m n db_inbox h = elim h [ inl e ↦ absurd (cc e) | inr e ↦ absurd (cc e) ]

  final_choice-some :
      (best : Candidate)
      → IsKafka floats results best
      → HasRun (results best)
      → HasRun (results db_inbox)
      → (final : Candidate) × (final_choice floats results best ≡ some final) × IsFinal best final
  unfolding final_choice key_of
  final_choice-some best k h i =
      let (m, d₁) = median_miss-some (results best) h in
      let (n, d₂) = median_miss-some (results db_inbox) i in
      elim (Bool-cases (meets (results best))) [
        | inl s ↦ (
          best,
          rw s refl,
          record {
            best_meets = λ _. refl;
            inbox_meets = λ f. absurd (ground (arith, s, f));
            lowest = λ _ _ f. absurd (ground (arith, s, f));
          },
        )
        | inr s ↦ elim (Bool-cases (meets (results db_inbox))) [
          | inl t ↦ (
            db_inbox,
            rw (s, t) refl,
            record {
              best_meets = λ f. absurd (ground (arith, s, f));
              inbox_meets = λ _ _. refl;
              lowest = λ _ _ _ f. absurd (ground (arith, t, f));
            },
          )
          | inr t ↦ (
            if floats.lt n m then db_inbox else best,
            rw (s, t, d₁, d₂, key_le-rates m n best k)
                (ap some (if_not (floats.lt n m) best db_inbox)),
            record {
              best_meets = λ f. absurd (ground (arith, s, f));
              inbox_meets = λ _ f. absurd (ground (arith, t, f));
              lowest = λ m' n' _ _ p q.
                  let em : m ≡ m' = cc (d₁, p) in let en : n ≡ n' = cc (d₂, q) in rw (em, en) refl;
            },
          )
        ]
      ]

  -- When each of the three candidates has the checks of a run, the rule does not raise. The Kafka
  -- structure it selects is safe when one of them is, and the final structure is that one when it
  -- meets the target, otherwise the inbox when that meets it, otherwise the inbox when
  -- its median of misses is the lower float, and the Kafka one when it is not.
  pub pick-some :
      HasRun (results kafka_bucket)
      → HasRun (results kafka_retry)
      → HasRun (results db_inbox)
      → (best : Candidate) × (final : Candidate) × (pick floats results ≡ some (best, final))
        × IsKafkaChoice floats results best
        × IsFinal best final
  unfolding pick
  pick-some b r i =
      let (best, e, h) = best_kafka-some floats results b r in
      let has = elim h.kafka as (λ _. HasRun (results best)) [ inl p ↦ rw p b | inr p ↦ rw p r ] in
      let (final, f, j) = final_choice-some best h.kafka has i in
      (best, final, rw (e, f) refl, h, j)

  key_of-none :
      (prefer : Candidate → ℕ) (c : Candidate)
      → is_empty (results c) ≡ false
      → present (results c) ≡ []
      → key_of floats results prefer c ≡ none
  unfolding key_of
  key_of-none prefer c h k = rw (median_miss-none (results c) h k) refl

  -- When neither Kafka structure is safe and all runs of one of them, of which there is one at
  -- least, are without checks, the rule raises: the median of no rates.
  pub pick-none :
      (c : Candidate)
      → IsKafka floats results c
      → safe (results kafka_bucket) ≡ false
      → safe (results kafka_retry) ≡ false
      → is_empty (results c) ≡ false
      → present (results c) ≡ []
      → pick floats results ≡ none
  unfolding pick best_kafka
  pick-none c k s t h e =
      let raised = key_of-none bucket_first c h e in
      rw (kafka_choice_both floats results (s ∙ sym t)) (elim k [
        | inl p ↦ rw (subst (λ x. key_of floats results bucket_first x ≡ none) p raised) refl
        | inr p ↦
            let second = subst (λ x. key_of floats results bucket_first x ≡ none) p raised in
            elim (Option-cases (key_of floats results bucket_first kafka_bucket)) [
              | inl f ↦ rw f refl
              | inr f ↦ rw (f.1, second) refl
            ]
      ])
