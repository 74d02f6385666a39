-- ===== src/Reports/Buffer.antt =====
-- `buffer_timeline` of experiments/isolation/report.py: when the buffer of a faulty run filled, and
-- when a normal seller's event first missed its target. Times are relative to the start of the
-- fault. `0.95 * limit` of a whole number is compared exactly.
pub mod First
use event_driven_order_syste.Base.{
  max, ℕ, ◌+◌, ◌-◌, ◌*◌, String, Bool, true, false, not, ◌&&◌, ◌==◌, string_eq, Option, none, some,
  List, [], ◌∷◌, ltb, leb, if◌then◌else◌,
}

abbrev pub miss_after_ms : ℕ
miss_after_ms = 1500

-- What the loop reads of a sample; a missing number is 0, and a missing partner has none.
pub record BufferSample : Type 0 where
  pub time : ℕ
  pub inbox_pending : List ℕ
  pub pc_work : ℕ
  pub retry : ℕ

pub record Timeline : Type 0 where
  pub filled : Option ℕ
  pub peak_inbox : ℕ
  pub peak_pc : ℕ
  pub peak_retry : ℕ

abbrev pub sum : List ℕ → ℕ
sum [] = 0
sum (n ∷ ns) = n + sum ns

-- The candidate's own buffer.
abbrev pub held : (is_inbox : Bool) → BufferSample → ℕ
held is_inbox s = if is_inbox then sum s.inbox_pending else s.pc_work

abbrev pub fills : (is_inbox : Bool) (limit from : ℕ) → BufferSample → Bool
fills is_inbox limit from s = leb from s.time && leb (95 * limit) (100 * held is_inbox s)

abbrev pub note_filled : (is_filling : Bool) (moment : ℕ) → Option ℕ → Option ℕ
note_filled is_filling moment (some t) = some t
note_filled true moment none = some moment
note_filled false moment none = none

abbrev pub see_sample : (is_inbox : Bool) (limit from : ℕ) → BufferSample → Timeline → Timeline
see_sample is_inbox limit from s t = record {
  filled = note_filled (fills is_inbox limit from s) (s.time - from) t.filled;
  peak_inbox = max t.peak_inbox (sum s.inbox_pending);
  peak_pc = max t.peak_pc s.pc_work;
  peak_retry = max t.peak_retry s.retry;
}

unfoldable pub see_samples :
    (is_inbox : Bool) (limit from : ℕ) → List BufferSample → Timeline → Timeline
see_samples is_inbox limit from [] t = t
see_samples is_inbox limit from (s ∷ samples) t =
    see_samples is_inbox limit from samples (see_sample is_inbox limit from s t)

abbrev pub empty_timeline : Timeline
empty_timeline = record { filled = none; peak_inbox = 0; peak_pc = 0; peak_retry = 0 }

-- An obligation with the seller in the trace and the time of the effect, where they are known.
pub record Obligation : Type 0 where
  pub created_at : ℕ
  pub seller : Option String
  pub effect_at : Option ℕ

-- `effects.get(event_id, float('inf')) - o['created_at'] > TARGET_MS`
abbrev pub is_too_late : (created_at : ℕ) → Option ℕ → Bool
is_too_late created_at none = true
is_too_late created_at (some t) = ltb (created_at + miss_after_ms) t

-- Whether the loop goes past its `continue`.
abbrev pub is_after : (fault_seller : String) (from created_at : ℕ) → Option String → Bool
is_after fault_seller from created_at none = false
is_after fault_seller from created_at (some seller) =
    not (seller == fault_seller) && leb from created_at

abbrev pub is_counted : (fault_seller : String) (from : ℕ) → Obligation → Bool
is_counted fault_seller from o = is_after fault_seller from o.created_at o.seller

-- A normal seller's obligation of the fault's time that missed its target.
abbrev pub is_miss : (fault_seller : String) (from : ℕ) → Obligation → Bool
is_miss fault_seller from o = is_counted fault_seller from o && is_too_late o.created_at o.effect_at

abbrev pub earlier : ℕ → Option ℕ → ℕ
earlier moment none = moment
earlier moment (some m) = if ltb m moment then m else moment

unfoldable pub first_miss :
    (fault_seller : String) (from : ℕ) → List Obligation → Option ℕ → Option ℕ
first_miss fault_seller from [] found = found
first_miss fault_seller from (o ∷ rest) found =
    first_miss fault_seller from rest
      (if is_miss fault_seller from o then some (earlier (o.created_at - from) found) else found)
