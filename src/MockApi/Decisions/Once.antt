-- ===== src/MockApi/Decisions/Once.antt =====
-- An event has one effect at most, however often its request is repeated and whatever it races
-- with (`do_POST` of experiments/mock-partner-api/server.py).
use event_driven_order_syste.Base.{
  ℕ, ◌+◌, String, ◌≡◌, inl, inr, true, List, [], ◌∷◌, arith, ◌==◌, ==_iff, nat_eq, string_eq,
  pair_eq, if◌then◌else◌, subst,
}
use event_driven_order_syste.Base.Dict.{lookup, lookup-insert}
use event_driven_order_syste.Base.Lists.{count_if, All}
use event_driven_order_syste.Event.{Event, event_eq}
use event_driven_order_syste.MockApi.Tables.{EffectRow}
use event_driven_order_syste.MockApi.Ledger.{Ledger}
use event_driven_order_syste.MockApi.Handler.{
  Call, Decision, decide, order_key, effect_row, is_some, to_bit,
}
use event_driven_order_syste.MockApi.Decisions.{Turn, decide_all}
use event_driven_order_syste.MockApi.Decisions.Cases.{Applies, decide_cases, judge-apply_new}

abbrev pub effects_of : String → List EffectRow → ℕ
effects_of id rows = count_if (λ row. row.event_id == id) rows

-- 1 if the ledger has the event's effect, else 0.
abbrev pub recorded : String → Ledger → ℕ
recorded id l = to_bit (is_some (lookup id l.effects))

abbrev pub IsIdempotent : Turn → Type 0
IsIdempotent t = t.call.policy.idempotent ≡ true

recorded-applied :
    (c : Call) (now : ℕ) (l : Ledger) (d : Decision) (l' : Ledger) (id : String)
    → c.policy.idempotent ≡ true
    → Applies c now l d l'
    → recorded id l' ≡ (if c.event.event_id == id then 1 else 0) + recorded id l
recorded-applied c now l d l' id i a = ground (
  arith,
  a.effects,
  lookup-insert c.event.event_id id c.event l.effects,
  ==_iff c.event.event_id id,
  judge-apply_new c (lookup c.event.event_id l.effects) (lookup (order_key c.event) l.orders) i
      a.verdict,
)

-- While every policy is idempotent, the rows written for an event make up exactly what the ledger
-- knows of it: an event without an effect gets one row or none, one with an effect gets no more.
pub effects_of-decide_all :
    (ts : List Turn) (l : Ledger) (id : String)
    → All IsIdempotent ts
    → effects_of id (decide_all ts l).0 + recorded id l ≡ recorded id (decide_all ts l).1
unfolding decide_all effect_row
effects_of-decide_all [] l id h = omega arith
effects_of-decide_all (t ∷ ts) l id h =
    let (d, l') = decide t.call t.effect_now t.end_now l in
    let (rows, last) = decide_all ts l' in
    let rest = effects_of-decide_all ts l' id h.1 in
    elim (decide_cases t.call t.effect_now t.end_now l) [
      | inl a ↦
          rw a.effect (omega (arith, rest, recorded-applied t.call t.effect_now l d l' id h.0 a))
      | inr k ↦ rw k.effect (
          subst (λ m. effects_of id rows + to_bit (is_some (lookup id m)) ≡ recorded id last)
            k.effects rest)
    ]
