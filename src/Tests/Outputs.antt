-- ===== src/Tests/Outputs.antt =====
-- The contract of the end-to-end run and the place of the evidence (experiments).
use event_driven_order_syste.Base.{
  ℕ, arith, ◌↔◌, ◌≡◌, refl, String, true, some, List, [], ◌∷◌, ◌++◌, nat_eq, ◌==◌, if◌then◌else◌,
}
use event_driven_order_syste.Base.Lists.{All}
use event_driven_order_syste.Event.{Event}
use event_driven_order_syste.EndToEnd.{source_sellers, contract, keys_of, operations_of}
use event_driven_order_syste.Base.Dict.{lookup, insert}
use event_driven_order_syste.EndToEnd.Contract.{IsOperation}
use event_driven_order_syste.EndToEnd.Once.{occurrences, AreDifferent, HasSellers, contract-once}
use event_driven_order_syste.EvidencePaths.{Location, Git, accepted, validate_evidence_path}
use event_driven_order_syste.EvidencePaths.Kept.{IsKept, validate_evidence_path_iff}

abbrev emitted : (order : ℕ) (seller : String) (sequence : ℕ) (operation : String) → Event
emitted order seller sequence operation = record {
  event_id = "e";
  run_id = "r";
  seller_id = seller;
  order_id = order;
  sequence = sequence;
  operation = operation;
  occurred_at = 5;
  schema_version = 1;
  quantity = if sequence == 1 then 2 else 3;
  price = if sequence == 1 then 100 else 120;
  padding = 0;
}

abbrev of_order : ℕ → String → List Event
of_order order seller =
    emitted order seller 1 "CREATE"
    ∷ emitted order seller 2 "CHANGE"
    ∷ emitted order seller 3 "CANCEL"
    ∷ []

abbrev six_orders : List ℕ
six_orders = 11 ∷ 12 ∷ 13 ∷ 14 ∷ 15 ∷ 16 ∷ []

abbrev all_emitted : List Event
all_emitted =
    of_order 11 "slow"
    ++ of_order 12 "normal"
    ++ of_order 13 "slow"
    ++ of_order 14 "normal"
    ++ of_order 15 "slow"
    ++ of_order 16 "normal"

six_orders-AreDifferent : AreDifferent six_orders
six_orders-AreDifferent o = ground arith

contract-once_example :
    All (λ p. occurrences (keys_of all_emitted) p ≡ 1) (operations_of six_orders)
    × All (IsOperation (source_sellers 0 six_orders []) "r") all_emitted
    × HasSellers six_orders all_emitted
    × (all_emitted ≡ all_emitted)
unfolding contract lookup insert
contract-once_example =
    contract-once six_orders "r" all_emitted all_emitted refl six_orders-AreDifferent refl

abbrev clean_git : Git
clean_git = record { is_ignored = λ path. true; tracked = λ path. some [] }

abbrev repository : Location
repository = "home" ∷ "app" ∷ []

abbrev evidence_path : Location
evidence_path = "home" ∷ "app" ∷ "experiment-evidence" ∷ []

abbrev resolve : String → Location
resolve path = "home" ∷ "app" ∷ path ∷ []

-- A path inside the repository that git ignores.
validate_evidence_path_iff_example :
    (validate_evidence_path resolve clean_git repository "experiment-evidence"
      ≡ accepted evidence_path)
    ↔ ((evidence_path ≡ evidence_path)
        × ((rest : Location) → evidence_path ≡ repository ++ rest → IsKept clean_git rest))
validate_evidence_path_iff_example =
    validate_evidence_path_iff resolve clean_git repository evidence_path "experiment-evidence"
