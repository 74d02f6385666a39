-- ===== src/MockApi/Decisions/Order.antt =====
-- The effects of one order are numbered 1, 2, 3, ... without a gap, and the effect index counts
-- the effects, whatever is requested (`do_POST` of experiments/mock-partner-api/server.py).
use event_driven_order_syste.Base.{
  ℕ, ◌+◌, String, ◌≡◌, refl, inl, inr, true, List, [], ◌∷◌, ◌++◌, arith, ◌==◌, ==_iff, nat_eq,
  string_eq, pair_eq, if◌then◌else◌, Bool-cases, subst,
}
use event_driven_order_syste.Base.Dict.{lookup, count_of, lookup-insert}
use event_driven_order_syste.Base.Lists.{length, Consecutive}
use event_driven_order_syste.MockApi.Tables.{EffectRow}
use event_driven_order_syste.MockApi.Ledger.{Ledger}
use event_driven_order_syste.MockApi.Handler.{Call, Decision, decide, order_key, effect_row}
use event_driven_order_syste.MockApi.Decisions.{Turn, decide_all, to_list}
use event_driven_order_syste.MockApi.Decisions.Cases.{Applies, Keeps, decide_cases, judge-apply}

-- The sequence numbers of the rows of one order, in order.
abbrev pub sequences : String × ℕ → List EffectRow → List ℕ
sequences key [] = []
sequences key (row ∷ rows) =
    let rest = sequences key rows in
    if (row.seller_id, row.order_id) == key then row.seq ∷ rest else rest

-- The last applied sequence number of an order, 0 for an order without effects.
abbrev pub last_sequence : String × ℕ → Ledger → ℕ
last_sequence key l = count_of (lookup key l.orders)

-- The rows `rows`, written from ledger `l` to `last`, number the order's effects on.
abbrev pub Numbers : String × ℕ → Ledger → List EffectRow → Ledger → Type 0
Numbers key l rows last =
    Consecutive (last_sequence key l) (sequences key rows)
    × (last_sequence key last ≡ last_sequence key l + length (sequences key rows))

pub last_sequence-applied :
    (c : Call) (now : ℕ) (l : Ledger) (d : Decision) (l' : Ledger) (key : String × ℕ)
    → Applies c now l d l'
    → last_sequence key l'
      ≡ (if order_key c.event == key then last_sequence key l + 1 else last_sequence key l)
last_sequence-applied c now l d l' key a = ground (
  arith,
  a.orders,
  lookup-insert (order_key c.event) key c.event.sequence l.orders,
  ==_iff (order_key c.event) key,
  judge-apply c (lookup c.event.event_id l.effects) (lookup (order_key c.event) l.orders) a.verdict,
)

sequence-applied :
    (c : Call) (now : ℕ) (l : Ledger) (d : Decision) (l' : Ledger) (key : String × ℕ)
    → Applies c now l d l'
    → (order_key c.event == key) ≡ true
    → c.event.sequence ≡ last_sequence key l + 1
sequence-applied c now l d l' key a same = ground (
  arith,
  ==_iff (order_key c.event) key,
  judge-apply c (lookup c.event.event_id l.effects) (lookup (order_key c.event) l.orders) a.verdict,
)

Numbers-applied :
    (c : Call) (now : ℕ) (l : Ledger) (d : Decision) (l' last : Ledger) (key : String × ℕ)
    (rows : List EffectRow)
    → Applies c now l d l'
    → Numbers key l' rows last
    → Numbers key l (to_list d.effect ++ rows) last
unfolding effect_row
Numbers-applied c now l d l' last key rows a h =
    let moved = last_sequence-applied c now l d l' key a in
    elim (Bool-cases (order_key c.event == key)) [
      | inl same ↦
          let next = sequence-applied c now l d l' key a same in
          let step : last_sequence key l' ≡ c.event.sequence = rw next (rw same at moved) in
          rw a.effect (
            rw same (
              (next, subst (λ k. Consecutive k (sequences key rows)) step h.0),
              omega (arith, h.1, step, next),
            ))
      | inr other ↦
          let step : last_sequence key l' ≡ last_sequence key l = rw other at moved in
          rw a.effect (
            rw other
              (subst (λ k. Consecutive k (sequences key rows)) step h.0, omega (arith, h.1, step)))
    ]

Numbers-kept :
    (c : Call) (l : Ledger) (d : Decision) (l' last : Ledger) (key : String × ℕ)
    (rows : List EffectRow)
    → Keeps c l d l'
    → Numbers key l' rows last
    → Numbers key l (to_list d.effect ++ rows) last
Numbers-kept c l d l' last key rows k h = rw (k.effect, ← k.orders) h

-- Whatever calls reach the mock, in whatever order they take the lock and under whatever policies,
-- the effects recorded for one order carry the numbers that follow the order's last one, without a
-- gap or a repetition, and the ledger's number for the order is the last of them.
pub decide_all-Numbers :
    (ts : List Turn) (l : Ledger) (key : String × ℕ)
    → Numbers key l (decide_all ts l).0 (decide_all ts l).1
unfolding decide_all
decide_all-Numbers [] l key = (tt, omega arith)
decide_all-Numbers (t ∷ ts) l key =
    let (d, l') = decide t.call t.effect_now t.end_now l in
    let (rows, last) = decide_all ts l' in
    let rest = decide_all-Numbers ts l' key in
    elim (decide_cases t.call t.effect_now t.end_now l) [
      | inl a ↦ Numbers-applied t.call t.effect_now l d l' last key rows a rest
      | inr k ↦ Numbers-kept t.call l d l' last key rows k rest
    ]

-- Every row's index is one more than the index before it.
abbrev pub Indexed : ℕ → List EffectRow → Type 0
Indexed next [] = Unit
Indexed next (row ∷ rows) = (row.effect_index ≡ next) × Indexed (next + 1) rows

-- Effects are indexed in the order of the decisions, from the ledger's next index, without a gap, and
-- the next index afterwards is as many further as there are effects.
pub decide_all-Indexed :
    (ts : List Turn) (l : Ledger)
    → Indexed l.next_effect (decide_all ts l).0
      × ((decide_all ts l).1.next_effect ≡ l.next_effect + length (decide_all ts l).0)
unfolding decide_all effect_row
decide_all-Indexed [] l = (tt, omega arith)
decide_all-Indexed (t ∷ ts) l =
    let (d, l') = decide t.call t.effect_now t.end_now l in
    let (rows, last) = decide_all ts l' in
    let rest = decide_all-Indexed ts l' in
    elim (decide_cases t.call t.effect_now t.end_now l) [
      | inl a ↦ rw a.effect (
        (refl, subst (λ n. Indexed n rows) a.next_effect rest.0),
        omega (arith, rest.1, a.next_effect),
      )
      | inr k ↦
          rw k.effect
            (subst (λ n. Indexed n rows × (last.next_effect ≡ n + length rows)) k.next_effect rest)
    ]
