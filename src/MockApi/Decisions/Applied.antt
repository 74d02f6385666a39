-- ===== src/MockApi/Decisions/Applied.antt =====
-- A client that sends the operations of each order in order gets all of them applied (`do_POST` of
-- experiments/mock-partner-api/server.py).
use event_driven_order_syste.Base.{
  ℕ, ◌+◌, ◌≤◌, ◌≡◌, ap, refl, String, Bool, none, List, [], ◌∷◌, map, ◌==◌, string_eq, nat_eq,
  pair_eq, arith, inl, inr,
}
use event_driven_order_syste.Base.Dict.{lookup, lookup-insert}
use event_driven_order_syste.Base.Lists.{count_if}
use event_driven_order_syste.MockApi.Tables.{EffectRow}
use event_driven_order_syste.MockApi.Ledger.{Ledger}
use event_driven_order_syste.MockApi.Handler.{Verdict, Decision, decide, order_key, effect_row}
use event_driven_order_syste.MockApi.Decisions.{Turn, decide_all}
use event_driven_order_syste.MockApi.Decisions.Cases.{
  Applies, decide_cases, judge-applies, verdict_at,
}
use event_driven_order_syste.MockApi.Decisions.Order.{last_sequence, last_sequence-applied}

abbrev pub same_event : String → Turn → Bool
same_event id t = t.call.event.event_id == id

abbrev pub same_order : String × ℕ → Turn → Bool
same_order key t = order_key t.call.event == key

-- A call after the `earlier` ones that a client may send: its faults are spent, its event is new,
-- and its number follows those of the order.
pub record IsNext (l : Ledger) (earlier : List Turn) (t : Turn) : Type 0 where
  pub fault : t.call.policy.failure_count ≤ t.call.count
  pub fresh : lookup t.call.event.event_id l.effects ≡ none
  pub once : count_if (same_event t.call.event.event_id) earlier ≡ 0
  pub number :
      t.call.event.sequence
      ≡ last_sequence (order_key t.call.event) l
        + count_if (same_order (order_key t.call.event)) earlier
        + 1

-- Calls in an order that a client may send, newest of the earlier ones first.
abbrev pub AreNext : Ledger → (earlier : List Turn) → List Turn → Type 0
AreNext l earlier [] = Unit
AreNext l earlier (t ∷ ts) = IsNext l earlier t × AreNext l (t ∷ earlier) ts

-- The ledger `m` is `l` after the effects of the earlier calls.
record Holds (l : Ledger) (earlier : List Turn) (m : Ledger) : Type 0 where
  fresh :
      (id : String)
      → lookup id l.effects ≡ none
      → count_if (same_event id) earlier ≡ 0
      → lookup id m.effects ≡ none
  number :
      (key : String × ℕ)
      → last_sequence key m ≡ last_sequence key l + count_if (same_order key) earlier

IsNext-apply :
    (l m : Ledger) (earlier : List Turn) (t : Turn)
    → Holds l earlier m
    → IsNext l earlier t
    → verdict_at t.call m ≡ Verdict.apply
IsNext-apply l m earlier t h n =
    let unseen = h.fresh t.call.event.event_id n.fresh n.once in
    let last = h.number (order_key t.call.event) in
    rw unseen (
      judge-applies t.call (lookup (order_key t.call.event) m.orders) n.fault
        (omega (arith, last, n.number)))

Holds-next :
    (l m : Ledger) (earlier : List Turn) (t : Turn) (d : Decision) (m' : Ledger)
    → Holds l earlier m
    → Applies t.call t.effect_now m d m'
    → Holds l (t ∷ earlier) m'
Holds-next l m earlier t d m' h a = record {
  fresh = λ id e c.
      let before = h.fresh id e (ground (arith, c)) in
      ground (
        arith,
        c,
        before,
        a.effects,
        lookup-insert t.call.event.event_id id t.call.event m.effects,
      );
  number =
      λ key. ground (arith, h.number key, last_sequence-applied t.call t.effect_now m d m' key a);
}

abbrev pub event_ids : List Turn → List String
event_ids ts = map (λ (t : Turn). t.call.event.event_id) ts

abbrev pub row_ids : List EffectRow → List String
row_ids rows = map (λ (row : EffectRow). row.event_id) rows

decide_all-row_ids :
    (l : Ledger) (earlier ts : List Turn) (m : Ledger)
    → Holds l earlier m
    → AreNext l earlier ts
    → row_ids (decide_all ts m).0 ≡ event_ids ts
unfolding decide_all effect_row
decide_all-row_ids l earlier [] m h n = refl
decide_all-row_ids l earlier (t ∷ ts) m h n = elim (decide_cases t.call t.effect_now t.end_now m) [
  | inl a ↦
      let (d, m') = decide t.call t.effect_now t.end_now m in
      rw a.effect (
        ap (◌∷◌ t.call.event.event_id)
          (decide_all-row_ids l (t ∷ earlier) ts m' (Holds-next l m earlier t d m' h a) n.1))
  | inr k ↦ absurd (k.verdict (IsNext-apply l m earlier t h n.0))
]

-- When every call meets no fault, is of an event without an effect and not among the calls before
-- it, and carries the number that follows those of its order, the mock records the effect of every
-- call, in the order of the calls.
pub decide_all-AreNext :
    (l : Ledger) (ts : List Turn) → AreNext l [] ts → row_ids (decide_all ts l).0 ≡ event_ids ts
decide_all-AreNext l ts n =
    decide_all-row_ids l [] ts l (record { fresh = λ id e c. e; number = λ key. omega arith }) n
