-- ===== src/Checker/Loops.antt =====
-- What each loop of `check` (experiments/checker.py) shows when it appends no error.
use event_driven_order_syste.Base.{
  ℕ, ◌≡◌, ◌⊎◌, ◌∙◌, sym, ap, subst, refl, String, Bool, true, false, not, ◌||◌, Option, none, some,
  List, [], ◌∷◌, ◌++◌, ◌==◌, ==_iff, nat_eq, string_eq, pair_eq, if◌then◌else◌, inl, inr,
  Bool-cases, Option-cases, arith,
}
use event_driven_order_syste.Base.Dict.{Dict, lookup, contains, counter}
use event_driven_order_syste.Base.Group.{all-lookup, group_by, all-group_by_some}
use event_driven_order_syste.Base.Lists.{keep, all, any, is_empty, All, all_iff}
use event_driven_order_syste.Event.{Event}
use event_driven_order_syste.MockApi.Tables.{EffectRow, OrderRow}
use event_driven_order_syste.Checker.{
  Problem, Label, DbEffect, Remote, require, expected_by_id, count_by_id, keys, same_keys,
  effect_ids, db_ids, row_key, row_seqs, wanted_seqs, list_beq, latest, actual, count_errors,
  missing_errors, extra_errors, latest_errors, payload_errors, order_errors, id_errors, db_errors,
  state_errors, row_errors, db_row_errors, final_errors, order_violation, effect_count,
  unexpected_effect, keys_differ,
}
use event_driven_order_syste.Checker.Effects.{
  is_empty-append, is_empty-require, is_empty-each, split_and, occurrences, counter-count_by_id,
  counter-none, same_counts-counter, same_keys-lookup, same_keys-only, IsEffectOf, IsRecordOf,
  IsFinalOf, row_errors-IsEffectOf, db_row_errors-IsRecordOf, final_errors-IsFinalOf,
}
use event_driven_order_syste.Checker.Ids.{bit, expected_by_id-keys}

-- The rows of one order, in the order of the snapshot.
abbrev pub rows_of : String × ℕ → Remote → List (EffectRow × Option Event)
rows_of key remote = keep (λ entry. row_key entry == key) remote.effects

-- The final rows are those of the latest events.
abbrev pub AreFinal : List Event → List OrderRow → Type 0
AreFinal expected rows =
    (key : String × ℕ)
    → ((e : Event)
        → lookup key (latest expected) ≡ some e
        → (row : OrderRow) × (lookup key (actual rows) ≡ some row) × IsFinalOf e row)
      × (lookup key (latest expected) ≡ none → lookup key (actual rows) ≡ none)

pub All-imp {ℓ} :
    {A : Type ℓ} (P Q : A → Type 0) → ((x : A) → P x → Q x) → (xs : List A) → All P xs → All Q xs
All-imp P Q f [] h = tt
All-imp P Q f (x ∷ xs) h = (f x h.0, All-imp P Q f xs h.1)

-- Rows that pass their test against the event of their id.
agreeing_rows :
    {R : Type 0} (id_of : R → String) (test : Option Event → R → List Problem)
    (Good : Event → R → Type 0) (d : Dict String Event)
    → ((e : Event) (r : R) → is_empty (test (some e) r) ≡ true → Good e r)
    → (rows : List R) → all (λ r. is_empty (test (lookup (id_of r) d) r)) rows ≡ true
    → (e : Event) → lookup e.event_id d ≡ some e
    → All (λ r. id_of r ≡ e.event_id → Good e r) rows
agreeing_rows id_of test Good d good rows h e found =
    All-imp _ _
      (λ r ok same. good e r (
        subst (λ (o : Option Event). is_empty (test o r) ≡ true) (ap (λ k. lookup k d) same ∙ found)
          ok))
      rows ((all_iff _ rows).0 h)

list_beq-eq : (xs ys : List ℕ) → list_beq xs ys ≡ true → xs ≡ ys
list_beq-eq [] [] h = refl
list_beq-eq [] (y ∷ ys) h = absurd (cc h)
list_beq-eq (x ∷ xs) [] h = absurd (cc h)
list_beq-eq (x ∷ xs) (y ∷ ys) h =
    let (same, rest) = heads x y (list_beq xs ys) h in rw same (ap (◌∷◌ y) (list_beq-eq xs ys rest))
  where
    heads : (x y : ℕ) (b : Bool) → (if x == y then b else false) ≡ true → (x ≡ y) × (b ≡ true)
    heads x y b h = ground arith

empty_or :
    {A : Type 0} (xs : List A) (b : Bool) → (is_empty xs || b) ≡ true → (xs ≡ []) ⊎ (b ≡ true)
empty_or [] b h = inl refl
empty_or (x ∷ xs) b h = inr h

pub any-All :
    {A : Type 0} (p : A → Bool) (xs : List A) → not (any p xs) ≡ true → All (λ x. p x ≡ false) xs
any-All p [] h = tt
any-All p (x ∷ xs) h = elim (Bool-cases (p x)) [
  | inl e ↦ absurd (cc (rw e at h))
  | inr e ↦ (e, any-All p xs (rw e at h))
]

pub order_errors-in_order :
    (expected : List Event) (remote : Remote) (key : String × ℕ)
    → is_empty (order_errors expected remote) ≡ true
    → (rows_of key remote ≡ []) ⊎ (row_seqs (rows_of key remote) ≡ wanted_seqs key expected)
unfolding order_errors
order_errors-in_order expected remote key h =
    let test = λ (k : String × ℕ) (rows : List (EffectRow × Option Event)). is_empty (
      require (list_beq (row_seqs rows) (wanted_seqs k expected))
        (order_violation k (row_seqs rows) (wanted_seqs k expected))) in
    elim (empty_or (rows_of key remote) _ (
      (all-group_by_some row_key test remote.effects).0
        (sym (is_empty-each _ (group_by row_key remote.effects)) ∙ h) key)) [
          | inl e ↦ inl e
          | inr ok ↦ inr (list_beq-eq _ _ (sym (is_empty-require _ _) ∙ ok))
        ]

pub and_more :
    (a b : List Problem) → is_empty (a ++ b) ≡ true → (is_empty a ≡ true) × (is_empty b ≡ true)
and_more a b h = split_and _ _ (sym (is_empty-append a b) ∙ h)

contains-some :
    (id : String) (d : Dict String Event) (e : Event) → lookup id d ≡ some e → contains id d ≡ true
unfolding contains
contains-some id d e h = ground arith

contains-none : (id : String) (d : Dict String Event) → lookup id d ≡ none → contains id d ≡ false
unfolding contains
contains-none id d h = ground arith

missing_errors-counter :
    (by_id : Dict String Event) (count : Dict String ℕ) (id : String) (e : Event)
    → is_empty (missing_errors by_id count) ≡ true
    → lookup id by_id ≡ some e
    → counter id count ≡ 1
unfolding missing_errors
missing_errors-counter by_id count id e h found = (==_iff (counter id count) 1).0 (
    sym (is_empty-require _ (effect_count id (counter id count)))
    ∙ all-lookup
        (λ (entry : String × Event).
          is_empty
            (require (counter entry.0 count == 1) (effect_count entry.0 (counter entry.0 count))))
        by_id id e (sym (is_empty-each _ by_id) ∙ h) found)

extra_errors-contains :
    (by_id : Dict String Event) (count : Dict String ℕ) (id : String) (n : ℕ)
    → is_empty (extra_errors by_id count) ≡ true
    → lookup id count ≡ some n
    → contains id by_id ≡ true
unfolding extra_errors
extra_errors-contains by_id count id n h found =
    sym (is_empty-require _ (unexpected_effect id))
    ∙ all-lookup
        (λ (entry : String × ℕ).
          is_empty (require (contains entry.0 by_id) (unexpected_effect entry.0)))
        count id n (sym (is_empty-each _ count) ∙ h) found

pub count_errors-occurrences :
    (expected : List Event) (remote : Remote) (id : String)
    → is_empty (count_errors expected remote) ≡ true
    → occurrences id (effect_ids remote) ≡ bit (contains id (expected_by_id expected))
unfolding count_errors
count_errors-occurrences expected remote id h =
    let count = count_by_id (effect_ids remote) in
    let by_id = expected_by_id expected in
    let (missing, extra) = and_more (missing_errors by_id count) _ h in
    let counted = counter-count_by_id id (effect_ids remote) in
    elim (Option-cases (lookup id by_id)) [
      | inr (e, found) ↦
          let one = missing_errors-counter by_id count id e missing found in
          omega (arith, counted, one, ap bit (contains-some id by_id e found))
      | inl none_there ↦ elim (Option-cases (lookup id count)) [
        | inl e ↦
            omega
              (arith, counted, counter-none id count e, ap bit (contains-none id by_id none_there))
        | inr (n, e) ↦
            absurd (
              cc
                (extra_errors-contains by_id count id n extra e, contains-none id by_id none_there))
      ]
    ]

pub id_errors-occurrences :
    (expected : List Event) (rows : List DbEffect) (id : String)
    → is_empty (id_errors expected rows) ≡ true
    → occurrences id (db_ids rows) ≡ bit (contains id (expected_by_id expected))
unfolding id_errors
id_errors-occurrences expected rows id h =
    sym (counter-count_by_id id (db_ids rows))
    ∙ (same_counts-counter _ _ id (sym (is_empty-require _ _) ∙ h)
        ∙ (counter-count_by_id id (keys (expected_by_id expected))
            ∙ expected_by_id-keys expected id))

latest_errors-IsFinalOf :
    (label : Label) (rows : Dict (String × ℕ) OrderRow) (events : Dict (String × ℕ) Event)
    (key : String × ℕ) (row : OrderRow) (e : Event)
    → is_empty (latest_errors label rows events) ≡ true
    → lookup key rows ≡ some row
    → lookup key events ≡ some e
    → IsFinalOf e row
unfolding latest_errors
latest_errors-IsFinalOf label rows events key row e h there found =
    final_errors-IsFinalOf label key e row (
      subst (λ (o : Option OrderRow). is_empty (final_errors label key o e) ≡ true) there
        (all-lookup
          (λ (entry : (String × ℕ) × Event).
            is_empty (final_errors label entry.0 (lookup entry.0 rows) entry.1))
          events key e (sym (is_empty-each _ events) ∙ h) found))

pub state_errors-AreFinal :
    (expected : List Event) (label : Label) (rows : List OrderRow)
    → is_empty (state_errors expected label rows) ≡ true
    → AreFinal expected rows
unfolding state_errors
state_errors-AreFinal expected label rows h key =
    let (same, fields) =
      and_more (require (same_keys (actual rows) (latest expected)) (keys_differ label)) _ h in
    let same_all : same_keys (actual rows) (latest expected) ≡ true =
      sym (is_empty-require _ (keys_differ label)) ∙ same in
    (
      λ e found.
          let (row, there) =
            same_keys-lookup (actual rows) (latest expected) key e same_all found in
          (
            row,
            there,
            latest_errors-IsFinalOf label (actual rows) (latest expected) key row e fields there
                found,
          ),
      same_keys-only (actual rows) (latest expected) key same_all,
    )

pub payload_rows :
    (expected : List Event) (remote : Remote)
    → is_empty (payload_errors expected remote) ≡ true
    → (e : Event) → lookup e.event_id (expected_by_id expected) ≡ some e
    → All (λ entry. entry.0.event_id ≡ e.event_id → IsEffectOf e entry) remote.effects
unfolding payload_errors
payload_rows expected remote h =
    agreeing_rows (λ entry. entry.0.event_id) row_errors IsEffectOf (expected_by_id expected)
      row_errors-IsEffectOf remote.effects (sym (is_empty-each _ remote.effects) ∙ h)

pub db_rows :
    (expected : List Event) (rows : List DbEffect)
    → is_empty (db_errors expected rows) ≡ true
    → (e : Event) → lookup e.event_id (expected_by_id expected) ≡ some e
    → All (λ (row : DbEffect). row.event_id ≡ e.event_id → IsRecordOf e row) rows
unfolding db_errors
db_rows expected rows h =
    agreeing_rows (λ row. row.event_id) db_row_errors IsRecordOf (expected_by_id expected)
      db_row_errors-IsRecordOf rows (sym (is_empty-each _ rows) ∙ h)
