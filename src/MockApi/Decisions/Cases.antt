-- ===== src/MockApi/Decisions/Cases.antt =====
-- What one decision of `do_POST` (experiments/mock-partner-api/server.py) changes: an applied call
-- writes its row and moves the state on; any other verdict leaves effects and orders alone.
use event_driven_order_syste.Base.{
  ◌≤◌, ℕ, ◌+◌, ◌≡◌, refl, ◌≢◌, ◌⊎◌, inl, inr, true, Option, none, some, arith, nat_eq, string_eq,
  pair_eq,
}
use event_driven_order_syste.Base.Dict.{lookup, insert, count_of}
use event_driven_order_syste.Event.{Event, event_eq}
use event_driven_order_syste.MockApi.Ledger.{Ledger}
use event_driven_order_syste.MockApi.Handler.{
  Call, Verdict, Decision, decide, judge, next_sequence, order_key, effect_row,
}

-- The verdict on a call at a ledger.
abbrev pub verdict_at : Call → Ledger → Verdict
verdict_at c l = judge c (lookup c.event.event_id l.effects) (lookup (order_key c.event) l.orders)

pub record Applies (c : Call) (now : ℕ) (l : Ledger) (d : Decision) (l' : Ledger) : Type 0 where
  pub verdict : verdict_at c l ≡ Verdict.apply
  pub effect : d.effect ≡ some (effect_row c.event l.next_effect now)
  pub effects : l'.effects ≡ insert c.event.event_id c.event l.effects
  pub orders : l'.orders ≡ insert (order_key c.event) c.event.sequence l.orders
  pub next_effect : l'.next_effect ≡ l.next_effect + 1

pub record Keeps (c : Call) (l : Ledger) (d : Decision) (l' : Ledger) : Type 0 where
  pub verdict : verdict_at c l ≢ Verdict.apply
  pub effect : d.effect ≡ none
  pub effects : l'.effects ≡ l.effects
  pub orders : l'.orders ≡ l.orders
  pub next_effect : l'.next_effect ≡ l.next_effect

Verdict-cases :
    (v : Verdict)
    → (v ≡ Verdict.apply)
      ⊎ ((v ≢ Verdict.apply)
          × ((v ≡ Verdict.fault)
              ⊎ ((v ≡ Verdict.replay) ⊎ ((v ≡ Verdict.conflict) ⊎ (v ≡ Verdict.out_of_order)))))
Verdict-cases Verdict.apply = inl refl
Verdict-cases Verdict.fault = inr (λ e. cc, inl refl)
Verdict-cases Verdict.replay = inr (λ e. cc, inr (inl refl))
Verdict-cases Verdict.conflict = inr (λ e. cc, inr (inr (inl refl)))
Verdict-cases Verdict.out_of_order = inr (λ e. cc, inr (inr (inr refl)))

module _ (c : Call) (t u : ℕ) (l : Ledger) where
  decide-Keeps :
      verdict_at c l ≢ Verdict.apply
      → (v : Verdict) → verdict_at c l ≡ v
      → v ≢ Verdict.apply
      → Keeps c l (decide c t u l).0 (decide c t u l).1
  unfolding decide
  decide-Keeps ne Verdict.apply e n = absurd (n refl)
  decide-Keeps ne _ e n = record {
    verdict = ne;
    effect = rw (e, decide) refl;
    effects = rw (e, decide) refl;
    orders = rw (e, decide) refl;
    next_effect = rw (e, decide) refl;
  }

  pub decide_cases :
      Applies c t l (decide c t u l).0 (decide c t u l).1
      ⊎ Keeps c l (decide c t u l).0 (decide c t u l).1
  unfolding decide
  decide_cases = elim (Verdict-cases (verdict_at c l)) [
    | inl e ↦ inl (record {
      verdict = e;
      effect = rw (e, decide) refl;
      effects = rw (e, decide) refl;
      orders = rw (e, decide) refl;
      next_effect = rw (e, decide) refl;
    })
    | inr (n, _) ↦ inr (decide-Keeps n (verdict_at c l) refl n)
  ]

next_sequence-eq : (state : Option ℕ) → next_sequence state ≡ count_of state + 1
unfolding next_sequence
next_sequence-eq none = refl
next_sequence-eq (some n) = ground arith

-- An applied call carries the next sequence number of its order.
pub judge-apply :
    (c : Call) (prior : Option Event) (state : Option ℕ)
    → judge c prior state ≡ Verdict.apply
    → c.event.sequence ≡ count_of state + 1
unfolding judge
judge-apply c prior state h = ground (arith, next_sequence-eq state)

-- Under an idempotent policy an applied event is new.
pub judge-apply_new :
    (c : Call) (prior : Option Event) (state : Option ℕ)
    → c.policy.idempotent ≡ true
    → judge c prior state ≡ Verdict.apply
    → prior ≡ none
unfolding judge
judge-apply_new c prior state i h = ground arith

-- A call that meets no fault, of an event without an effect, with the next number is applied.
pub judge-applies :
    (c : Call) (state : Option ℕ)
    → c.policy.failure_count ≤ c.count
    → c.event.sequence ≡ count_of state + 1
    → judge c none state ≡ Verdict.apply
unfolding judge
judge-applies c state f h = ground (arith, next_sequence-eq state)
