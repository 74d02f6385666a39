-- ===== src/MockApi/Decisions.antt =====
-- The decisions of `do_POST` (experiments/mock-partner-api/server.py) one after another. Only the
-- section under the lock writes `effects`, `orders` and `next_effect`, so any interleaving of the
-- handler threads is a list of calls in the order in which they take the lock.
pub mod Cases
pub mod Order
pub mod Once
pub mod Applied
use event_driven_order_syste.Base.{ℕ, Option, none, some, List, [], ◌∷◌, ◌++◌}
use event_driven_order_syste.MockApi.Tables.{EffectRow}
use event_driven_order_syste.MockApi.Ledger.{Ledger}
use event_driven_order_syste.MockApi.Handler.{Call, decide}

-- A call with the two readings of the clock.
pub record Turn : Type 0 where
  pub call : Call
  pub effect_now : ℕ
  pub end_now : ℕ

abbrev pub to_list {ℓ} : {A : Type ℓ} → Option A → List A
to_list none = []
to_list (some a) = a ∷ []

-- The effect rows in the order of the decisions, and the ledger after them.
unfoldable pub decide_all : List Turn → Ledger → List EffectRow × Ledger
decide_all [] l = ([], l)
decide_all (t ∷ ts) l =
    let (d, l') = decide t.call t.effect_now t.end_now l in
    let (rows, last) = decide_all ts l' in (to_list d.effect ++ rows, last)
