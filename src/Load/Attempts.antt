-- ===== src/Load/Attempts.antt =====
-- The attempts of `Sender.run` (experiments/isolation/load.py).
use event_driven_order_syste.Base.{
  ℕ, zero, suc, ◌+◌, ◌≤◌, ◌<◌, ◌≡◌, ◌≢◌, ◌⊎◌, subst, refl, Bool, true, false, Option, none, some,
  arith, inl, inr, Bool-cases, if◌then◌else◌, nat_eq,
}
use event_driven_order_syste.Load.{
  Target, Outcome, Record, raised, replied, fresh, is_final, attempt, stops, send, run,
}

-- The status that attempt `n` ends with, before the test for the `break`.
abbrev pub status_at : Target → (ℕ → Outcome) → ℕ → Option ℕ
status_at target outcomes n = (attempt target (outcomes n) fresh).0

-- What a record of `left` attempts from `n` on says of them.
pub record IsSent (target : Target) (outcomes : ℕ → Outcome) (n left : ℕ) (r : Record)
    : Type 0 where
  pub first : n ≤ r.attempts
  pub last : r.attempts < n + left
  -- no attempt follows one that stops
  pub unfinished : (k : ℕ) → n ≤ k → k < r.attempts → stops (status_at target outcomes k) ≡ false
  -- fewer attempts only because the last one stopped
  pub finished : r.attempts + 1 < n + left → stops (status_at target outcomes r.attempts) ≡ true
  pub status : r.status ≡ status_at target outcomes r.attempts

attempt-status :
    (target : Target) (o : Outcome) (r : Record)
    → ((attempt target o r).0 ≡ (attempt target o fresh).0)
      × ((attempt target o r).1.status ≡ (attempt target o fresh).0)
      × ((attempt target o r).1.attempts ≡ r.attempts)
unfolding attempt
attempt-status target raised r = (refl, refl, refl)
attempt-status Target.mock (replied status created) r = (refl, refl, refl)
attempt-status Target.source (replied status none) r = ground arith
attempt-status Target.source (replied status (some t)) r = ground arith

-- The last attempt: it stops, or no other is left.
IsSent-last :
    (target : Target) (outcomes : ℕ → Outcome) (n left : ℕ) (r : Record)
    → r.attempts ≡ n
    → r.status ≡ status_at target outcomes n
    → (0 < left → stops (status_at target outcomes n) ≡ true)
    → IsSent target outcomes n (suc left) r
IsSent-last target outcomes n left r a s f = record {
  first = omega arith;
  last = omega arith;
  unfinished = λ k x y. absurd (omega arith);
  finished = λ h. rw a (f (omega arith));
  status = rw a s;
}

IsSent-more :
    (target : Target) (outcomes : ℕ → Outcome) (n left : ℕ) (r : Record)
    → stops (status_at target outcomes n) ≡ false
    → IsSent target outcomes (n + 1) left r
    → IsSent target outcomes n (suc left) r
IsSent-more target outcomes n left r e s = record {
  first = omega (arith, s.first);
  last = omega (arith, s.last);
  unfinished = λ k x y. elim (split n k) [
    | inl same ↦ subst (λ i. stops (status_at target outcomes i) ≡ false) same e
    | inr other ↦ s.unfinished k (omega (arith, other, x)) y
  ];
  finished = λ h. s.finished (omega (arith, h));
  status = s.status;
}
  where
    split : (a b : ℕ) → (a ≡ b) ⊎ (a ≢ b)
    split a b = ground arith

if_same : (b : Bool) (r : Record) → (if b then r else r) ≡ r
if_same true r = refl
if_same false r = refl

send-IsSent :
    (target : Target) (outcomes : ℕ → Outcome) (n left : ℕ) (r : Record)
    → IsSent target outcomes n (suc left) (send target outcomes n (suc left) r)
unfolding send
send-IsSent target outcomes n zero r =
    let now = attempt-status target (outcomes n) (record r { attempts = n }) in
    let (status, r') = attempt target (outcomes n) (record r { attempts = n }) in
    rw (if_same (stops status) r')
      (IsSent-last target outcomes n zero r' now.2 now.1 (λ h. absurd (omega arith)))
send-IsSent target outcomes n (suc left) r =
    let now = attempt-status target (outcomes n) (record r { attempts = n }) in
    let (status, r') = attempt target (outcomes n) (record r { attempts = n }) in
    elim (Bool-cases (stops status)) [
      | inl e ↦ rw e (IsSent-last target outcomes n (suc left) r' now.2 now.1 (λ h. rw (← now.0) e))
      | inr e ↦ rw e (
          IsSent-more target outcomes n (suc left) _ (rw (← now.0) e)
            (send-IsSent target outcomes (n + 1) left r'))
    ]

-- Whatever the target answers, one to five attempts are made; none follows an attempt that ended
-- with status 200 or 4xx, fewer than five are made only after such an attempt, and the recorded
-- status is that of the last attempt.
pub run-IsSent :
    (target : Target) (outcomes : ℕ → Outcome) → IsSent target outcomes 1 5 (run target outcomes)
unfolding run
run-IsSent target outcomes = send-IsSent target outcomes 1 4 fresh

-- An acceptance time stands only beside the status 200.
abbrev IsHonest : Record → Type 0
IsHonest r = (r.created_at ≡ none) ⊎ (r.status ≡ some 200)

attempt-IsHonest :
    (target : Target) (o : Outcome) (r : Record)
    → r.created_at ≡ none
    → ((attempt target o r).1.created_at ≡ none)
      ⊎ (((attempt target o r).0 ≡ some 200) × ((attempt target o r).1.status ≡ some 200))
unfolding attempt
attempt-IsHonest target raised r h = inl h
attempt-IsHonest Target.mock (replied status created) r h = inl h
attempt-IsHonest Target.source (replied status none) r h = ground arith
attempt-IsHonest Target.source (replied status (some t)) r h = ground arith

send-IsHonest :
    (target : Target) (outcomes : ℕ → Outcome) (n left : ℕ) (r : Record)
    → r.created_at ≡ none
    → IsHonest (send target outcomes n left r)
unfolding send stops is_final
send-IsHonest target outcomes n zero r h = inl h
send-IsHonest target outcomes n (suc left) r h =
    let (status, r') = attempt target (outcomes n) (record r { attempts = n }) in
    elim (attempt-IsHonest target (outcomes n) (record r { attempts = n }) h) [
      | inl e ↦ elim (Bool-cases (stops status)) [
        | inl s ↦ rw s (inl e)
        | inr s ↦ rw s (send-IsHonest target outcomes (n + 1) left r' e)
      ]
      | inr (e, e') ↦ rw e (inr e')
    ]

-- The record of a sent event has an acceptance time only with the status 200, whatever earlier
-- attempts met.
pub run-created_at :
    (target : Target) (outcomes : ℕ → Outcome) (t : ℕ)
    → (run target outcomes).created_at ≡ some t
    → (run target outcomes).status ≡ some 200
unfolding run
run-created_at target outcomes t h = elim (send-IsHonest target outcomes 1 5 fresh refl) [
  | inl e ↦ absurd (cc (e, h))
  | inr e ↦ e
]
