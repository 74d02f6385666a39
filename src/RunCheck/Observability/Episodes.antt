-- ===== src/RunCheck/Observability/Episodes.antt =====
-- The episodes of the observability verdict (experiments/isolation/check.py).
use event_driven_order_syste.Base.{
  ℕ, ◌+◌, ◌*◌, ◌≤◌, ◌≡◌, refl, Bool, true, false, ◌&&◌, ◌||◌, Option, none, some, List, [], ◌∷◌,
  ltb, nat_eq, if◌then◌else◌, arith, sym, subst, Bool-cases, inl, inr,
}
use event_driven_order_syste.Base.Lists.{All}
use event_driven_order_syste.RunCheck.Observability.{
  Row, Judge, judge_start, judge_row, judge_rows, begin_episode, detect, miss, is_normal, grace_ms,
  start_of,
}

-- Some row of the unbroken run of overdue rows that the past ends with is older than the grace
-- period. The past is given newest first.
abbrev pub long_overdue : (past : List Row) (t : ℕ) → Bool
long_overdue [] t = false
long_overdue (r ∷ past) t = r.truth && (ltb (r.t + grace_ms) t || long_overdue past t)

-- NORMAL though the backlog has been overdue for more than the grace period.
abbrev pub is_missed : (past : List Row) → Row → Bool
is_missed past r = r.truth && (is_normal r.state && long_overdue past r.t)

abbrev pub missed_rows : (past : List Row) → List Row → ℕ
missed_rows past [] = 0
missed_rows past (r ∷ rows) = (if is_missed past r then 1 else 0) + missed_rows (r ∷ past) rows

-- The rows are in the order of time.
abbrev pub InOrder : (past : List Row) → List Row → Type 0
InOrder past [] = Unit
InOrder past (r ∷ rows) = All (λ (p : Row). p.t ≤ r.t) past × InOrder (r ∷ past) rows

-- The start of the episode is the oldest time of the run that the past ends with.
abbrev Started : (past : List Row) → Option ℕ → Type 0
Started past none = (t : ℕ) → long_overdue past t ≡ false
Started past (some start) =
    ((t : ℕ) → long_overdue past t ≡ ltb (start + grace_ms) t)
    × ((t : ℕ) → All (λ (p : Row). p.t ≤ t) past → start ≤ t)

-- What a turn does to the two variables that count.
judge_row-truth :
    (r : Row) (j : Judge)
    → r.truth ≡ true
    → ((judge_row r j).episode_start ≡ some (start_of j.episode_start r.t))
      × ((judge_row r j).missed_ms
          ≡ j.missed_ms
            + (if is_normal r.state && ltb (start_of j.episode_start r.t + grace_ms) r.t
                then 1000
                else 0))
unfolding judge_row begin_episode detect miss
judge_row-truth r j h = ground arith

judge_row-clear :
    (r : Row) (j : Judge)
    → r.truth ≡ false
    → ((judge_row r j).episode_start ≡ none) × ((judge_row r j).missed_ms ≡ j.missed_ms)
unfolding judge_row
judge_row-clear r j h = ground arith

Started-first :
    (past : List Row) (r : Row) → r.truth ≡ true → Started past none → Started (r ∷ past) (some r.t)
Started-first past r h s = (λ t. rw (h, s t) (or_false (ltb (r.t + grace_ms) t)), λ t a. a.0)
  where
    or_false : (b : Bool) → (b || false) ≡ b
    or_false true = refl
    or_false false = refl

Started-more :
    (past : List Row) (r : Row) (start : ℕ)
    → r.truth ≡ true
    → All (λ (p : Row). p.t ≤ r.t) past
    → Started past (some start)
    → Started (r ∷ past) (some start)
Started-more past r start h order s =
    (λ t. rw (h, s.0 t) (ground (arith, s.1 r.t order)), λ t a. s.1 t a.1)

Started-next :
    (past : List Row) (r : Row) (o : Option ℕ)
    → r.truth ≡ true
    → All (λ (p : Row). p.t ≤ r.t) past
    → Started past o
    → Started (r ∷ past) (some (start_of o r.t))
Started-next past r none h order s = Started-first past r h s
Started-next past r (some start) h order s = Started-more past r start h order s

long_overdue-start :
    (past : List Row) (r : Row) (o : Option ℕ)
    → Started past o
    → long_overdue past r.t ≡ ltb (start_of o r.t + grace_ms) r.t
long_overdue-start past r none s = rw (s r.t) (ground arith)
long_overdue-start past r (some start) s = s.0 r.t

judge_rows-missed_ms :
    (past rows : List Row) (j : Judge)
    → InOrder past rows
    → Started past j.episode_start
    → (judge_rows rows j).missed_ms ≡ j.missed_ms + 1000 * missed_rows past rows
unfolding judge_rows
judge_rows-missed_ms past [] j order s = omega arith
judge_rows-missed_ms past (r ∷ rows) j order s = elim (Bool-cases r.truth) [
  | inl h ↦
      let (start, missed) = judge_row-truth r j h in
      let rest = judge_rows-missed_ms (r ∷ past) rows (judge_row r j) order.1 (
        subst (λ o. Started (r ∷ past) o) (sym start)
          (Started-next past r j.episode_start h order.0 s)) in
      ground (arith, rest, missed, long_overdue-start past r j.episode_start s)
  | inr h ↦
      let (start, missed) = judge_row-clear r j h in
      let rest =
        judge_rows-missed_ms (r ∷ past) rows (judge_row r j) order.1
          (subst (λ o. Started (r ∷ past) o) (sym start) (λ t. rw h refl)) in
      ground (arith, rest, missed)
]

-- On rows in the order of time, the missed time is 1000 ms for each row that is NORMAL though the
-- backlog has been overdue without a break for more than the grace period.
pub judge_rows-missed_rows :
    (rows : List Row)
    → InOrder [] rows
    → (judge_rows rows judge_start).missed_ms ≡ 1000 * missed_rows [] rows
judge_rows-missed_rows rows order =
    omega (arith, judge_rows-missed_ms [] rows judge_start order (λ t. refl))
