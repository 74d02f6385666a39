-- ===== src/MockApi/Durable/Lost.antt =====
-- What the memory of the mock (experiments/mock-partner-api/server.py) keeps after a failed group:
-- the decision is not taken back, so a resend is answered as a duplicate of an effect that the
-- file does not hold.
use event_driven_order_syste.Base.{
  ℕ, ◌≤◌, ◌<◌, ◌≡◌, refl, inl, inr, Bool, true, false, some, List, [], ◌∷◌, arith, string_eq, ◌∙◌,
  ap,
}
use event_driven_order_syste.Base.Dict.{lookup, lookup-insert_self}
use event_driven_order_syste.Event.{event_eq, event_beq_iff}
use event_driven_order_syste.MockApi.Tables.{
  Statement, execute_all, execute, update_attempt, Database,
}
use event_driven_order_syste.MockApi.Ledger.{
  Ledger, enqueue, gather, commit, store, write_queue, write_round, all_statements,
}
use event_driven_order_syste.MockApi.Handler.{
  Call, Verdict, decide, judge, applied, moved, finish, answer,
}
use event_driven_order_syste.MockApi.Decisions.Cases.{verdict_at, decide_cases}

-- What a round that fails leaves of the memory and of the file.
failed_round :
    (l l' : Ledger)
    → write_round false l ≡ some l'
    → (l'.effects ≡ l.effects) × (l'.orders ≡ l.orders) × (l'.db ≡ l.db)
unfolding write_round write_queue store commit
failed_round l l' h = ground arith

-- The rounds of a writer with one item in its queue.
one_item :
    (disk : Bool) (ss : List Statement) (l l' : Ledger)
    → l.pending ≡ []
    → write_round disk (enqueue ss l).1 ≡ some l'
    → (l'.pending ≡ [])
      × (l'.db ≡ (commit disk (record { ticket = l.next_ticket; statements = ss } ∷ []) l.db).1)
unfolding write_round write_queue store enqueue gather
one_item disk ss l l' p h = ground arith

execute_all-update_attempt :
    (e st lost id : ℕ) (ticket : ℕ) (db : Database)
    → (commit true
        (record { ticket = ticket; statements = update_attempt e st lost id ∷ [] } ∷ [])
        db).1.effects
      ≡ db.effects
unfolding commit all_statements execute_all execute
execute_all-update_attempt e st lost id ticket db = refl

-- A resend of an event whose effect is in memory sends one statement, the end of its attempt.
resend-statements :
    (c : Call) (t u : ℕ) (l : Ledger)
    → lookup c.event.event_id l.effects ≡ some c.event
    → c.policy.idempotent ≡ true
    → c.policy.failure_count ≤ c.count
    → 0 < c.count
    → let d = (decide c t u l).0 in
      (d.statements ≡ update_attempt u 200 0 c.attempt ∷ [])
      × (finish c d true ≡ answer c.event.event_id 200 true)
unfolding decide judge finish
resend-statements c t u l h i f r = ground (arith, event_beq_iff c.event c.event)

-- A decision touches neither the queue nor the file.
decide-queue :
    (c : Call) (t u : ℕ) (l : Ledger)
    → ((decide c t u l).1.pending ≡ l.pending) × ((decide c t u l).1.db ≡ l.db)
unfolding decide moved applied
decide-queue c t u l = ground arith

enqueue-db : (ss : List Statement) (l : Ledger) → (enqueue ss l).1.db ≡ l.db
unfolding enqueue
enqueue-db ss l = refl

enqueue-effects : (ss : List Statement) (l : Ledger) → (enqueue ss l).1.effects ≡ l.effects
unfolding enqueue
enqueue-effects ss l = refl

decide-remembers :
    (c : Call) (t u : ℕ) (l : Ledger)
    → verdict_at c l ≡ Verdict.apply
    → lookup c.event.event_id (decide c t u l).1.effects ≡ some c.event
decide-remembers c t u l v = elim (decide_cases c t u l) [
  | inl a ↦ rw a.effects (lookup-insert_self c.event.event_id c.event l.effects)
  | inr k ↦ absurd (k.verdict v)
]

remembered_after :
    (c c' : Call) (t u : ℕ) (l l₂ : Ledger)
    → verdict_at c l ≡ Verdict.apply
    → c'.event ≡ c.event
    → write_round false (enqueue (decide c t u l).0.statements (decide c t u l).1).1 ≡ some l₂
    → lookup c'.event.event_id l₂.effects ≡ some c'.event
remembered_after c c' t u l l₂ v same w =
    rw same (rw (failed_round _ l₂ w).0 (rw enqueue-effects (decide-remembers c t u l v)))

-- With an empty queue, when the group that holds an event's effect cannot be committed, the effect
-- stays in memory: the next attempt of the same event, under an idempotent policy whose faults are
-- spent, is answered 200 as a duplicate once its own group is committed, and the file has gained no
-- effect row from either attempt.
pub answered_without_effect :
    (c c' : Call) (t u t' u' : ℕ) (l l₂ l₄ : Ledger)
    → l.pending ≡ []
    → verdict_at c l ≡ Verdict.apply
    → c'.event ≡ c.event
    → c'.policy.idempotent ≡ true
    → c'.policy.failure_count ≤ c'.count
    → 0 < c'.count
    → write_round false (enqueue (decide c t u l).0.statements (decide c t u l).1).1 ≡ some l₂
    → write_round true (enqueue (decide c' t' u' l₂).0.statements (decide c' t' u' l₂).1).1
      ≡ some l₄
    → (finish c' (decide c' t' u' l₂).0 true ≡ answer c.event.event_id 200 true)
      × (l₄.db.effects ≡ l.db.effects)
answered_without_effect c c' t u t' u' l l₂ l₄ p v same i f r w₁ w₂ =
    let l₁ = (decide c t u l).1 in
    let l₃ = (decide c' t' u' l₂).1 in
    let known = remembered_after c c' t u l l₂ v same w₁ in
    let again = resend-statements c' t' u' l₂ known i f r in
    let first =
      one_item false (decide c t u l).0.statements l₁ l₂ (rw (decide-queue c t u l).0 p) w₁ in
    let second =
      one_item true _ l₃ l₄ (rw (decide-queue c' t' u' l₂).0 first.0) (rw again.0 at w₂) in
    (
      rw (again.1, same) refl,
      ap (λ (d : Database). d.effects) second.1
          ∙ (execute_all-update_attempt u' 200 0 c'.attempt l₃.next_ticket l₃.db
              ∙ ap (λ (d : Database). d.effects)
                  ((decide-queue c' t' u' l₂).1
                    ∙ (failed_round _ l₂ w₁).2
                    ∙ enqueue-db _ l₁
                    ∙ (decide-queue c t u l).1)),
    )
