-- ===== src/EndToEnd/Contract.antt =====
-- What the contract of the end-to-end run (experiments/end_to_end.py) lets pass.
use event_driven_order_syste.Base.{
  ℕ, ◌≡◌, ◌∙◌, sym, ap, if◌then◌else◌, subst, inl, inr, String, Bool, true, ◌&&◌, some, List, [],
  ◌∷◌, ◌==◌, ==_iff, arith, nat_eq, Bool-cases, Option-cases,
}
use event_driven_order_syste.Base.Dict.{Dict, lookup}
use event_driven_order_syste.Base.Lists.{All, length, all, all_iff}
use event_driven_order_syste.Event.{Event, event_eq}
use event_driven_order_syste.EndToEnd.{
  source_sellers, operation_at, wanted, expected, keys_of, operations_of, is_pair_in, same_set,
  contract,
}

-- An event with the fields that its order and number ask for.
abbrev pub IsWanted : Dict ℕ String → (run_id : String) → Event → Type 0
IsWanted sellers run_id e = wanted sellers run_id e ≡ some e

expected-lem :
    (sellers : Dict ℕ String) (run_id : String) (records events : List Event)
    → expected sellers run_id records ≡ some events
    → (events ≡ records) × All (IsWanted sellers run_id) records
unfolding expected
expected-lem sellers run_id [] events = λ h. (cc h, tt)
expected-lem sellers run_id (e ∷ records) events = elim (Option-cases (wanted sellers run_id e)) [
  | inl f ↦ rw (expected, f) (λ h. absurd (cc h))
  | inr (w, f) ↦ elim (Option-cases (expected sellers run_id records)) [
    | inl g ↦ rw (expected, f, g) (λ h. absurd (cc h))
    | inr (rest, g) ↦
        let (same, all_wanted) = expected-lem sellers run_id records rest g in
        elim (Bool-cases (e == w)) [
          | inl b ↦
              let equal : e ≡ w = (==_iff e w).0 b in
              rw (expected, f, g, b) (λ h. (cc (h, equal, same), (ap some (sym equal), all_wanted)))
          | inr b ↦ rw (expected, f, g, b) (λ h. absurd (cc h))
        ]
  ]
]

-- The set of the keys of the events is that of the orders' operations.
abbrev pub Covers : List ℕ → List Event → Type 0
Covers orders events =
    All (λ p. is_pair_in (operations_of orders) p ≡ true) (keys_of events)
    × All (λ p. is_pair_in (keys_of events) p ≡ true) (operations_of orders)

three : (a b c : Bool) → (a && (b && c)) ≡ true → (a ≡ true) × (b ≡ true) × (c ≡ true)
three a b c h = ground (arith, h)

-- When the run goes on, the expected events are the emitted ones; each of them has the seller,
-- the operation, the amounts and the run that its order and number ask for; there are 18 of them;
-- and they cover the three operations of the orders, and nothing else.
pub contract-lem :
    (orders : List ℕ) (run_id : String) (records events : List Event)
    → contract orders run_id records ≡ some events
    → (events ≡ records)
      × All (IsWanted (source_sellers 0 orders []) run_id) records
      × (length events ≡ 18)
      × Covers orders events
unfolding contract
contract-lem orders run_id records events =
    elim (Option-cases (expected (source_sellers 0 orders []) run_id records)) [
      | inl f ↦ rw (contract, f) (λ h. absurd (cc h))
      | inr (found, f) ↦
          let test = length found == 18 && same_set (keys_of found) (operations_of orders) in
          let (same, wanted_all) =
            expected-lem (source_sellers 0 orders []) run_id records found f in
          elim (Bool-cases test) [
            | inl b ↦
                let parts =
                  three (length found == 18)
                    (all (is_pair_in (operations_of orders)) (keys_of found))
                    (all (is_pair_in (keys_of found)) (operations_of orders)) b in
                rw (contract, f, b)
                  (λ h.
                    let equal : found ≡ events = cc h in
                    subst
                      (λ es.
                        (es ≡ records)
                        × All (IsWanted (source_sellers 0 orders []) run_id) records
                        × (length es ≡ 18)
                        × Covers orders es)
                      equal
                      (
                        same,
                        wanted_all,
                        ground (arith, b),
                        (
                          (all_iff (is_pair_in (operations_of orders)) (keys_of found)).0 (parts.1),
                          (all_iff (is_pair_in (keys_of found)) (operations_of orders)).0 (parts.2),
                        ),
                      ))
            | inr b ↦ rw (contract, f, b) (λ h. absurd (cc h))
          ]
    ]

-- What an event of an order must hold, field by field.
pub record IsOperation (sellers : Dict ℕ String) (run_id : String) (e : Event) : Type 0 where
  pub seller : lookup e.order_id sellers ≡ some e.seller_id
  pub run : e.run_id ≡ run_id
  pub operation : operation_at e.sequence ≡ some e.operation
  pub quantity : e.quantity ≡ (if e.sequence == 1 then 2 else 3)
  pub price : e.price ≡ (if e.sequence == 1 then 100 else 120)
  pub schema : e.schema_version ≡ 1

pub wanted-IsOperation :
    (sellers : Dict ℕ String) (run_id : String) (e : Event)
    → IsWanted sellers run_id e
    → IsOperation sellers run_id e
unfolding wanted
wanted-IsOperation sellers run_id e = elim (Option-cases (operation_at e.sequence)) [
  | inl f ↦ rw (wanted, f) (λ h. absurd (cc h))
  | inr (operation, f) ↦ elim (Option-cases (lookup e.order_id sellers)) [
    | inl g ↦ rw (wanted, f, g) (λ h. absurd (cc h))
    | inr (seller, g) ↦
        rw (wanted, f, g)
          (λ h.
            let want : Event = record e {
              seller_id = seller;
              run_id = run_id;
              operation = operation;
              quantity = if e.sequence == 1 then 2 else 3;
              price = if e.sequence == 1 then 100 else 120;
              schema_version = 1;
            } in
            let same : want ≡ e = cc h in
            record {
              seller = g ∙ ap (λ (x : Event). some x.seller_id) same;
              run = sym (ap (λ (x : Event). x.run_id) same);
              operation = f ∙ ap (λ (x : Event). some x.operation) same;
              quantity = sym (ap (λ (x : Event). x.quantity) same);
              price = sym (ap (λ (x : Event). x.price) same);
              schema = sym (ap (λ (x : Event). x.schema_version) same);
            })
  ]
]
