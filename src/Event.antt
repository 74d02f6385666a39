-- ===== src/Event.antt =====
-- The delivery event that travels between the parts: a JSON object with the fields of
-- `dataset` (experiments/run.py) and `build` (experiments/isolation/trace.py). `padding` is the
-- number of `x` characters of the padding field. Prices are whole numbers in the program
-- (`float(100 + seq)`), so they are numbers here. A JSON text is the value that it encodes:
-- `json.loads(json.dumps(e))` is `e`.
use event_driven_order_syste.Base.{
  ℕ, String, ◌≡◌, ◌↔◌, Bool, ◌&&◌, arith, HasEq, ◌==◌, ==_iff, nat_eq, string_eq,
}

pub record Event : Type 0 where
  pub event_id : String
  pub run_id : String
  pub seller_id : String
  pub order_id : ℕ
  pub sequence : ℕ
  pub operation : String
  pub occurred_at : ℕ
  pub schema_version : ℕ
  pub quantity : ℕ
  pub price : ℕ
  pub padding : ℕ

abbrev pub event_beq : Event → Event → Bool
event_beq a b =
    a.event_id == b.event_id
    && (a.run_id == b.run_id
        && (a.seller_id == b.seller_id
            && (a.order_id == b.order_id
                && (a.sequence == b.sequence
                    && (a.operation == b.operation
                        && (a.occurred_at == b.occurred_at
                            && (a.schema_version == b.schema_version
                                && (a.quantity == b.quantity
                                    && (a.price == b.price && a.padding == b.padding)))))))))

pub event_beq_iff : (a b : Event) → (event_beq a b ≡ Bool.true) ↔ (a ≡ b)
event_beq_iff a b = ground (
  arith,
  ==_iff a.event_id b.event_id,
  ==_iff a.run_id b.run_id,
  ==_iff a.seller_id b.seller_id,
  ==_iff a.operation b.operation,
)

instance abbrev pub event_eq : HasEq Event
event_eq = record { test = event_beq; agrees = event_beq_iff }
