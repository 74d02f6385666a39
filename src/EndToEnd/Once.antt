-- ===== src/EndToEnd/Once.antt =====
-- The end-to-end run (experiments/end_to_end.py) goes on only when every operation of its orders was
-- emitted once.
use event_driven_order_syste.Base.Dict.{Dict, lookup, insert, lookup-insert, lookup-insert_self}
use event_driven_order_syste.Base.{
  sym, ap, ◌∙◌, ◌++◌, ◌%◌, if◌then◌else◌, ℕ, ◌+◌, ◌*◌, ◌≤◌, ◌≡◌, refl, subst, String, true, some,
  List, [], ◌∷◌, ◌==◌, arith, nat_eq, pair_eq, inl, inr, Bool-cases,
}
use event_driven_order_syste.Base.Lists.{All, length, count_if}
use event_driven_order_syste.Event.{Event}
use event_driven_order_syste.EndToEnd.{
  Pair, is_pair_in, keys_of, operations_of, source_sellers, contract,
}
use event_driven_order_syste.EndToEnd.Contract.{
  IsWanted, Covers, IsOperation, wanted-IsOperation, contract-lem,
}

abbrev pub occurrences : List Pair → Pair → ℕ
occurrences keys p = count_if (λ q. q == p) keys

abbrev places : Pair → List Pair → ℕ
places q ps = count_if (λ p. q == p) ps

abbrev total : (ps keys : List Pair) → ℕ
total [] keys = 0
total (p ∷ ps) keys = occurrences keys p + total ps keys

total_nil : (ps : List Pair) → total ps [] ≡ 0
total_nil [] = refl
total_nil (p ∷ ps) = omega (arith, total_nil ps)

total_cons :
    (ps : List Pair) (q : Pair) (keys : List Pair)
    → total ps (q ∷ keys) ≡ places q ps + total ps keys
total_cons [] q keys = omega arith
total_cons (p ∷ ps) q keys = omega (arith, total_cons ps q keys)

total-le : (ps keys : List Pair) → ((q : Pair) → places q ps ≤ 1) → total ps keys ≤ length keys
total-le ps [] h = omega (arith, total_nil ps)
total-le ps (q ∷ keys) h = omega (arith, total_cons ps q keys, h q, total-le ps keys h)

occurrences-any : (keys : List Pair) (p : Pair) → is_pair_in keys p ≡ true → 1 ≤ occurrences keys p
occurrences-any [] p h = absurd (cc h)
occurrences-any (q ∷ keys) p h = elim (Bool-cases (q == p)) [
  | inl e ↦ rw e (omega arith)
  | inr e ↦ let rest = occurrences-any keys p (rw e at h) in rw e (omega (arith, rest))
]

total_least :
    (ps keys : List Pair) → All (λ p. is_pair_in keys p ≡ true) ps → length ps ≤ total ps keys
total_least [] keys h = omega arith
total_least (p ∷ ps) keys h = omega (arith, occurrences-any keys p h.0, total_least ps keys h.1)

-- When there are no more keys than pairs that have to be among them, each pair is there once.
all_once :
    (ps keys : List Pair)
    → All (λ p. is_pair_in keys p ≡ true) ps
    → total ps keys ≤ length ps
    → All (λ p. occurrences keys p ≡ 1) ps
all_once [] keys h k = tt
all_once (p ∷ ps) keys h k =
    let here = occurrences-any keys p h.0 in
    let later = total_least ps keys h.1 in
    (omega (arith, here, later, k), all_once ps keys h.1 (omega (arith, here, later, k)))

-- No order id occurs twice.
abbrev pub AreDifferent : List ℕ → Type 0
AreDifferent orders = (o : ℕ) → count_if (λ p. o == p) orders ≤ 1

places-operations :
    (o s : ℕ) (orders : List ℕ)
    → places (o, s) (operations_of orders) ≤ count_if (λ p. o == p) orders
places-operations o s [] = omega arith
places-operations o s (p ∷ orders) = ground (arith, places-operations o s orders)

length-operations : (orders : List ℕ) → length (operations_of orders) ≡ 3 * length orders
length-operations [] = omega arith
length-operations (o ∷ orders) = omega (arith, length-operations orders)

length-keys : (events : List Event) → length (keys_of events) ≡ length events
length-keys [] = refl
length-keys (e ∷ events) = omega (arith, length-keys events)

wanted_all-IsOperation :
    (run_id : String) (orders : List ℕ) (records : List Event)
    → All (IsWanted (source_sellers 0 orders []) run_id) records
    → All (IsOperation (source_sellers 0 orders []) run_id) records
wanted_all-IsOperation run_id orders [] h = tt
wanted_all-IsOperation run_id orders (e ∷ records) h = (
  wanted-IsOperation (source_sellers 0 orders []) run_id e h.0,
  wanted_all-IsOperation run_id orders records h.1,
)

-- The orders of the HTTP input belong to the slow and the normal seller in turn.
abbrev pub seller_at : (place : ℕ) → String
seller_at place = if place % 2 == 0 then "slow" else "normal"

source_sellers-other :
    (i o : ℕ) (orders : List ℕ) (d : Dict ℕ String)
    → count_if (λ p. o == p) orders ≡ 0
    → lookup o (source_sellers i orders d) ≡ lookup o d
unfolding source_sellers
source_sellers-other i o [] d h = refl
source_sellers-other i o (p ∷ orders) d h = elim (Bool-cases (o == p)) [
  | inl e ↦ absurd (ground (arith, e, h))
  | inr e ↦
      source_sellers-other (i + 1) o orders (insert p (seller_at i) d) (ground (arith, e, h))
      ∙ ground (arith, lookup-insert p o (seller_at i) d, e)
]

source_sellers-at :
    (i o : ℕ) (before after : List ℕ) (d : Dict ℕ String)
    → count_if (λ p. o == p) (before ++ o ∷ after) ≤ 1
    → lookup o (source_sellers i (before ++ o ∷ after) d) ≡ some (seller_at (i + length before))
unfolding source_sellers
source_sellers-at i o [] after d h =
    let none_after : count_if (λ p. o == p) after ≡ 0 = ground (arith, h) in
    source_sellers-other (i + 1) o after (insert o (seller_at i) d) none_after
    ∙ lookup-insert_self o (seller_at i) d
    ∙ ap (λ n. some (seller_at n)) (omega arith)
source_sellers-at i o (p ∷ before) after d h =
    source_sellers-at (i + 1) o before after (insert p (seller_at i) d) (ground (arith, h))
    ∙ ap (λ n. some (seller_at n)) (omega arith)

-- The events of an order carry the seller of its place among the orders.
abbrev pub HasSellers : List ℕ → List Event → Type 0
HasSellers orders records =
    (before after : List ℕ) (o : ℕ)
    → orders ≡ before ++ o ∷ after
    → All (λ (e : Event). e.order_id ≡ o → e.seller_id ≡ seller_at (length before)) records

all_sellers :
    (run_id : String) (sellers : Dict ℕ String) (o : ℕ) (seller : String) (records : List Event)
    → lookup o sellers ≡ some seller
    → All (IsOperation sellers run_id) records
    → All (λ (e : Event). e.order_id ≡ o → e.seller_id ≡ seller) records
all_sellers run_id sellers o seller [] h k = tt
all_sellers run_id sellers o seller (e ∷ records) h k =
    let found = k.0.seller in
    (
      λ same.
          let known : lookup e.order_id sellers ≡ some seller =
            subst (λ p. lookup p sellers ≡ some seller) (sym same) h in
          cc (found, known),
      all_sellers run_id sellers o seller records h k.1,
    )

operations-HasSellers :
    (run_id : String) (orders : List ℕ) (records : List Event)
    → AreDifferent orders
    → All (IsOperation (source_sellers 0 orders []) run_id) records
    → HasSellers orders records
operations-HasSellers run_id orders records different h = λ before after o e.
    let there : lookup o (source_sellers 0 orders []) ≡ some (seller_at (length before)) =
      subst (λ os. lookup o (source_sellers 0 os []) ≡ some (seller_at (length before))) (sym e)
        (source_sellers-at 0 o before after []
            (subst (λ os. count_if (λ p. o == p) os ≤ 1) e (different o))
          ∙ ap (λ n. some (seller_at n)) (omega arith)) in
    all_sellers run_id (source_sellers 0 orders []) o (seller_at (length before)) records there h

-- When the run goes on after six different orders, each of their three operations is among the
-- emitted events exactly once; each emitted event has the run, the operation, quantity, price and
-- schema that its sequence number asks for, and the seller of its order, slow and normal in turn;
-- and the expected events are the emitted ones.
pub contract-once :
    (orders : List ℕ) (run_id : String) (records events : List Event)
    → length orders ≡ 6
    → AreDifferent orders
    → contract orders run_id records ≡ some events
    → All (λ p. occurrences (keys_of records) p ≡ 1) (operations_of orders)
      × All (IsOperation (source_sellers 0 orders []) run_id) records
      × HasSellers orders records
      × (events ≡ records)
contract-once orders run_id records events six different h =
    let (same, all_wanted, number, covers) = contract-lem orders run_id records events h in
    let most =
      total-le (operations_of orders) (keys_of records)
        (λ q. omega (arith, places-operations q.0 q.1 orders, different q.0)) in
    let records_number : length records ≡ 18 = subst (λ es. length es ≡ 18) same number in
    let operations = wanted_all-IsOperation run_id orders records all_wanted in
    let covered = subst (Covers orders) same covers in
    (
      all_once (operations_of orders) (keys_of records) covered.1
          (omega (arith, most, length-operations orders, length-keys records, records_number, six)),
      operations,
      operations-HasSellers run_id orders records different operations,
      same,
    )
