-- ===== src/Checker/Effects.antt =====
-- Counters and row tests of experiments/checker.py.
use event_driven_order_syste.Base.{
  ℕ, ◌+◌, ◌≡◌, ◌∙◌, sym, ap, refl, String, Bool, true, false, ◌&&◌, Option, none, some, List, [],
  ◌∷◌, ◌++◌, HasEq, ◌==◌, ==_iff, nat_eq, string_eq, pair_eq, inl, inr, Option-cases, arith,
}
use event_driven_order_syste.Base.Dict.{Dict, lookup, insert, contains, counter, lookup-insert}
use event_driven_order_syste.Base.Group.{all-lookup}
use event_driven_order_syste.Base.Lists.{all, is_empty, count_if}
use event_driven_order_syste.Event.{Event, event_eq}
use event_driven_order_syste.MockApi.Tables.{EffectRow, OrderRow}
use event_driven_order_syste.Checker.{
  Problem, Label, DbEffect, require, each, count_by_id, count_ids, same_counts, same_keys,
  field_errors, request_errors, row_errors, db_row_errors, final_errors,
}

pub is_empty-append {ℓ} :
    {A : Type ℓ} (xs ys : List A) → is_empty (xs ++ ys) ≡ (is_empty xs && is_empty ys)
is_empty-append [] ys = refl
is_empty-append (x ∷ xs) ys = refl

pub is_empty-require : (b : Bool) (p : Problem) → is_empty (require b p) ≡ b
unfolding require
is_empty-require true p = refl
is_empty-require false p = refl

-- A loop without errors.
pub is_empty-each {ℓ} :
    {A : Type ℓ} (f : A → List Problem) (xs : List A)
    → is_empty (each f xs) ≡ all (λ x. is_empty (f x)) xs
unfolding each
is_empty-each f [] = refl
is_empty-each f (x ∷ xs) = ground (arith, is_empty-append (f x) (each f xs), is_empty-each f xs)

pub split_and : (a b : Bool) → (a && b) ≡ true → (a ≡ true) × (b ≡ true)
split_and true b h = (refl, h)
split_and false b h = absurd (cc h)

-- How often an id stands in a list.
abbrev pub occurrences : String → List String → ℕ
occurrences id ids = count_if (λ x. x == id) ids

counter-count_ids :
    (id : String) (ids : List String) (d : Dict String ℕ)
    → counter id (count_ids ids d) ≡ occurrences id ids + counter id d
unfolding count_ids counter
counter-count_ids id [] d = omega arith
counter-count_ids id (x ∷ xs) d = ground (
  arith,
  counter-count_ids id xs (insert x (counter x d + 1) d),
  lookup-insert x id (counter x d + 1) d,
  ==_iff x id,
)

-- A Counter counts.
pub counter-count_by_id :
    (id : String) (ids : List String) → counter id (count_by_id ids) ≡ occurrences id ids
unfolding count_by_id counter lookup
counter-count_by_id id ids = omega (arith, counter-count_ids id ids [])

pub counter-some :
    (id : String) (n : ℕ) (d : Dict String ℕ) → lookup id d ≡ some n → counter id d ≡ n
unfolding counter
counter-some id n d h = ground arith

pub counter-none : (id : String) (d : Dict String ℕ) → lookup id d ≡ none → counter id d ≡ 0
unfolding counter
counter-none id d h = ground arith

pub same_counts-counter :
    (a b : Dict String ℕ) (id : String) → same_counts a b ≡ true → counter id a ≡ counter id b
unfolding same_counts
same_counts-counter a b id h =
    let (to, from) = split_and _ _ h in
    elim (Option-cases (lookup id a)) [
      | inl e ↦ elim (Option-cases (lookup id b)) [
        | inl f ↦ counter-none id a e ∙ sym (counter-none id b f)
        | inr (n, f) ↦
            (==_iff (counter id a) n).0
              (all-lookup (λ (entry : String × ℕ). counter entry.0 a == entry.1) b id n from f)
            ∙ sym (counter-some id n b f)
      ]
      | inr (n, e) ↦
          counter-some id n a e
          ∙ sym (
              (==_iff (counter id b) n).0
                (all-lookup (λ (entry : String × ℕ). counter entry.0 b == entry.1) a id n to e))
    ]

pub same_keys-lookup :
    {A B : Type 0} (a : Dict (String × ℕ) A) (b : Dict (String × ℕ) B) (key : String × ℕ) (v : B)
    → same_keys a b ≡ true
    → lookup key b ≡ some v
    → (w : A) × (lookup key a ≡ some w)
unfolding same_keys contains
same_keys-lookup a b key v h e = elim (Option-cases (lookup key a)) [
  | inl f ↦
      let k = all-lookup (λ entry. contains entry.0 a) b key v (split_and _ _ h).1 e in
      absurd (ground arith)
  | inr found ↦ found
]

pub same_keys-only :
    {A B : Type 0} (a : Dict (String × ℕ) A) (b : Dict (String × ℕ) B) (key : String × ℕ)
    → same_keys a b ≡ true
    → lookup key b ≡ none
    → lookup key a ≡ none
unfolding same_keys contains
same_keys-only a b key h e = elim (Option-cases (lookup key a)) [
  | inl f ↦ f
  | inr (w, f) ↦
      let k = all-lookup (λ entry. contains entry.0 b) a key w (split_and _ _ h).0 f in
      absurd (ground arith)
]

-- A row of the mock holds the event, field by field, and its request was this event.
pub record IsEffectOf (e : Event) (row : EffectRow × Option Event) : Type 0 where
  pub seller_id : row.0.seller_id ≡ e.seller_id
  pub order_id : row.0.order_id ≡ e.order_id
  pub seq : row.0.seq ≡ e.sequence
  pub operation : row.0.operation ≡ e.operation
  pub quantity : row.0.quantity ≡ e.quantity
  pub price : row.0.price ≡ e.price
  pub request : row.1 ≡ some e

pub record IsRecordOf (e : Event) (row : DbEffect) : Type 0 where
  pub seller_id : row.seller_id ≡ e.seller_id
  pub order_id : row.order_id ≡ e.order_id
  pub run_id : row.run_id ≡ e.run_id
  pub seq : row.seq ≡ e.sequence
  pub operation : row.operation ≡ e.operation
  pub quantity : row.quantity ≡ e.quantity
  pub price : row.price ≡ e.price

pub record IsFinalOf (e : Event) (row : OrderRow) : Type 0 where
  pub seq : row.seq ≡ e.sequence
  pub operation : row.operation ≡ e.operation
  pub quantity : row.quantity ≡ e.quantity
  pub price : row.price ≡ e.price

require_ok :
    {A : Type 0} ⦃q : HasEq A⦄ (a b : A) (p : Problem) (rest : List Problem)
    → is_empty (require (a == b) p ++ rest) ≡ true
    → (a ≡ b) × (is_empty rest ≡ true)
require_ok ⦃q⦄ a b p rest h =
    let (x, y) = split_and _ _ (sym (is_empty-append (require (a == b) p) rest) ∙ h) in
    ((q.agrees a b).0 (sym (is_empty-require (a == b) p) ∙ x), y)

require_last :
    {A : Type 0} ⦃q : HasEq A⦄ (a b : A) (p : Problem)
    → is_empty (require (a == b) p) ≡ true
    → a ≡ b
require_last ⦃q⦄ a b p h = (q.agrees a b).0 (sym (is_empty-require (a == b) p) ∙ h)

request_errors-IsEffectOf :
    (id : String) (payload : Option Event) (e : Event)
    → is_empty (request_errors id payload e) ≡ true
    → payload ≡ some e
unfolding request_errors
request_errors-IsEffectOf id none e h = absurd (cc h)
request_errors-IsEffectOf id (some payload) e h = ap some (require_last payload e _ h)

pub row_errors-IsEffectOf :
    (e : Event) (row : EffectRow × Option Event)
    → is_empty (row_errors (some e) row) ≡ true
    → IsEffectOf e row
unfolding row_errors field_errors
row_errors-IsEffectOf e (row, payload) h =
    let (fields, request) =
      split_and _ _
        (sym (is_empty-append (field_errors row e) (request_errors row.event_id payload e)) ∙ h) in
    let (a, h1) = require_ok row.seller_id e.seller_id _ _ fields in
    let (b, h2) = require_ok row.order_id e.order_id _ _ h1 in
    let (c, h3) = require_ok row.seq e.sequence _ _ h2 in
    let (d, h4) = require_ok row.operation e.operation _ _ h3 in
    let (f, h5) = require_ok row.quantity e.quantity _ _ h4 in
    record {
      seller_id = a;
      order_id = b;
      seq = c;
      operation = d;
      quantity = f;
      price = require_last row.price e.price _ h5;
      request = request_errors-IsEffectOf row.event_id payload e request;
    }

pub db_row_errors-IsRecordOf :
    (e : Event) (row : DbEffect) → is_empty (db_row_errors (some e) row) ≡ true → IsRecordOf e row
unfolding db_row_errors
db_row_errors-IsRecordOf e row h =
    let (a, h1) = require_ok row.seller_id e.seller_id _ _ h in
    let (b, h2) = require_ok row.order_id e.order_id _ _ h1 in
    let (r, h3) = require_ok row.run_id e.run_id _ _ h2 in
    let (c, h4) = require_ok row.seq e.sequence _ _ h3 in
    let (d, h5) = require_ok row.operation e.operation _ _ h4 in
    let (f, h6) = require_ok row.quantity e.quantity _ _ h5 in
    record {
      seller_id = a;
      order_id = b;
      run_id = r;
      seq = c;
      operation = d;
      quantity = f;
      price = require_last row.price e.price _ h6;
    }

pub final_errors-IsFinalOf :
    (label : Label) (key : String × ℕ) (e : Event) (row : OrderRow)
    → is_empty (final_errors label key (some row) e) ≡ true
    → IsFinalOf e row
unfolding final_errors
final_errors-IsFinalOf label key e row h =
    let (a, h1) = require_ok row.seq e.sequence _ _ h in
    let (b, h2) = require_ok row.operation e.operation _ _ h1 in
    let (c, h3) = require_ok row.quantity e.quantity _ _ h2 in
    record { seq = a; operation = b; quantity = c; price = require_last row.price e.price _ h3 }
