-- ===== src/Checker/Ids.antt =====
-- The dict of the expected events (`expected_by_id` of experiments/checker.py) when no event id is
-- given twice.
use event_driven_order_syste.Base.{
  ℕ, ◌+◌, ◌≤◌, ◌≡◌, String, Bool, false, some, List, [], ◌∷◌, map, ==_iff, string_eq, if◌then◌else◌,
  arith,
}
use event_driven_order_syste.Base.Dict.{
  Dict, lookup, insert, contains, lookup-insert, lookup-insert_self,
}
use event_driven_order_syste.Base.Lists.{length, All}
use event_driven_order_syste.Base.Group.{KeysUnique, insert-KeysUnique}
use event_driven_order_syste.Event.{Event}
use event_driven_order_syste.Checker.{keys, load_expected, expected_by_id}
use event_driven_order_syste.Checker.Effects.{occurrences}

abbrev pub event_ids : List Event → List String
event_ids es = map (λ (e : Event). e.event_id) es

abbrev pub bit : Bool → ℕ
bit b = if b then 1 else 0

length-insert :
    (k : String) (v : Event) (d : Dict String Event)
    → length (insert k v d) ≡ (if contains k d then 0 else 1) + length d
unfolding insert contains lookup
length-insert k v [] = omega arith
length-insert k v ((j, w) ∷ d) = ground (arith, length-insert k v d)

length-load_expected :
    (es : List Event) (d : Dict String Event) → length (load_expected es d) ≤ length es + length d
unfolding load_expected
length-load_expected [] d = omega arith
length-load_expected (e ∷ es) d =
    ground (arith, length-load_expected es (insert e.event_id e d), length-insert e.event_id e d)

-- A step of the loop over events without a repetition meets a new id.
new_id :
    (e : Event) (es : List Event) (d : Dict String Event)
    → length (load_expected (e ∷ es) d) ≡ length (e ∷ es) + length d
    → (contains e.event_id d ≡ false)
      × (length (load_expected es (insert e.event_id e d))
          ≡ length es + length (insert e.event_id e d))
unfolding load_expected
new_id e es d h =
    let bound = length-load_expected es (insert e.event_id e d) in
    let size = length-insert e.event_id e d in ground (arith, bound, size, h)

load_expected-lookup :
    (es : List Event) (d : Dict String Event) (k : String) (v : Event)
    → length (load_expected es d) ≡ length es + length d
    → lookup k d ≡ some v
    → lookup k (load_expected es d) ≡ some v
unfolding load_expected contains
load_expected-lookup [] d k v h e = e
load_expected-lookup (x ∷ xs) d k v h e =
    let (fresh, rest) = new_id x xs d h in
    load_expected-lookup xs (insert x.event_id x d) k v rest
      (ground (arith, lookup-insert x.event_id k x d, ==_iff x.event_id k))

load_expected-All :
    (es : List Event) (d : Dict String Event)
    → length (load_expected es d) ≡ length es + length d
    → All (λ (e : Event). lookup e.event_id (load_expected es d) ≡ some e) es
unfolding load_expected
load_expected-All [] d h = tt
load_expected-All (x ∷ xs) d h =
    let rest = (new_id x xs d h).1 in
    (
      load_expected-lookup xs (insert x.event_id x d) x.event_id x rest
          (lookup-insert_self x.event_id x d),
      load_expected-All xs (insert x.event_id x d) rest,
    )

load_expected-occurrences :
    (es : List Event) (d : Dict String Event) (id : String)
    → length (load_expected es d) ≡ length es + length d
    → occurrences id (event_ids es) + bit (contains id d) ≡ bit (contains id (load_expected es d))
unfolding load_expected contains
load_expected-occurrences [] d id h = omega arith
load_expected-occurrences (x ∷ xs) d id h =
    let (fresh, rest) = new_id x xs d h in
    ground (
      arith,
      load_expected-occurrences xs (insert x.event_id x d) id rest,
      lookup-insert x.event_id id x d,
      ==_iff x.event_id id,
    )

module _ (expected : List Event) (unique : length (expected_by_id expected) ≡ length expected) where
  whole : length (load_expected expected []) ≡ length expected + 0
  unfolding expected_by_id
  whole = omega (arith, unique)

  -- Every expected event is found under its id.
  pub expected_by_id-All :
      All (λ (e : Event). lookup e.event_id (expected_by_id expected) ≡ some e) expected
  unfolding expected_by_id
  expected_by_id-All = load_expected-All expected [] whole

  -- An id stands in the dict if it is expected, and is expected once at most.
  pub expected_by_id-occurrences :
      (id : String)
      → occurrences id (event_ids expected) ≡ bit (contains id (expected_by_id expected))
  unfolding expected_by_id contains lookup
  expected_by_id-occurrences id = omega (arith, load_expected-occurrences expected [] id whole)

load_expected-KeysUnique :
    (es : List Event) (d : Dict String Event) → KeysUnique d → KeysUnique (load_expected es d)
unfolding load_expected
load_expected-KeysUnique [] d h = h
load_expected-KeysUnique (e ∷ es) d h =
    load_expected-KeysUnique es (insert e.event_id e d) (insert-KeysUnique e.event_id e d h)

occurrences-keys :
    (id : String) (d : Dict String Event)
    → KeysUnique d
    → occurrences id (keys d) ≡ bit (contains id d)
unfolding contains lookup
occurrences-keys id [] h = omega arith
occurrences-keys id ((k, v) ∷ d) h = ground (arith, occurrences-keys id d h.1, ==_iff k id, h.0)

-- The keys of the dict, each once.
pub expected_by_id-keys :
    (expected : List Event) (id : String)
    → occurrences id (keys (expected_by_id expected)) ≡ bit (contains id (expected_by_id expected))
unfolding expected_by_id
expected_by_id-keys expected id =
    occurrences-keys id (load_expected expected []) (load_expected-KeysUnique expected [] tt)
