-- ===== src/RunCheck/Run.antt =====
-- The files of a run directory that `check` (experiments/isolation/check.py) reads, as values, and
-- the dicts that it builds from them.
use event_driven_order_syste.Base.{
  ℕ, zero, String, Bool, true, false, ◌&&◌, Option, none, some, List, [], ◌∷◌, ◌==◌, nat_eq,
  string_eq,
}
use event_driven_order_syste.Base.Dict.{Dict, insert}
use event_driven_order_syste.Base.Lists.{keep}
use event_driven_order_syste.Event.{Event}
use event_driven_order_syste.MockApi.Tables.{EffectRow, AttemptRow}

-- A line of trace.jsonl.
pub record Planned : Type 0 where
  pub planned_offset_ms : ℕ
  pub phase : String
  pub event : Event

-- A line of load.jsonl. `status` is `None` after an exception.
pub record Published : Type 0 where
  pub event_id : String
  pub planned_at : ℕ
  pub sent_at : ℕ
  pub status : Option ℕ
  pub created_at : Option ℕ

-- A TRACE line of a partner log. A line of stage `claimed` has a generation; without one the
-- checker would stop with a TypeError.
pub data Trace : Type 0 where
  claimed : (event_id : String) (time generation : ℕ) → Trace
  business_commit : (event_id : String) (time : ℕ) (generation : Option ℕ) → Trace
  other_stage : Trace

pub record Limits : Type 0 where
  pub global : ℕ
  pub seller : ℕ
  pub retry_per_second : ℕ

pub record Run : Type 0 where
  pub trace : List Planned
  pub load : List Published
  pub effects : List EffectRow
  pub attempts : List AttemptRow
  pub open_inbox : List String
  pub held_permits : List ℕ
  pub traces : List Trace
  pub limits : Limits
  pub end_of_observation : ℕ

load_planned : List Planned → Dict String Event → Dict String Event
load_planned [] d = d
load_planned (p ∷ ps) d = load_planned ps (insert p.event.event_id p.event d)

-- `{e['event']['eventId']: e for e in trace}`
unfoldable pub planned_events : Run → Dict String Event
unfolding load_planned
planned_events r = load_planned r.trace []

load_published : List Published → Dict String Published → Dict String Published
load_published [] d = d
load_published (p ∷ ps) d = load_published ps (insert p.event_id p d)

unfoldable pub published : Run → Dict String Published
unfolding load_published
published r = load_published r.load []

-- `v.get('createdAt')` as a condition: missing, null and 0 do not count.
abbrev pub is_set : Option ℕ → Bool
is_set none = false
is_set (some zero) = false
is_set (some n) = true

abbrev pub is_status : ℕ → Option ℕ → Bool
is_status code none = false
is_status code (some s) = s == code

-- The published events that the source accepted.
unfoldable pub is_accepted : Published → Bool
is_accepted v = is_status 200 v.status && is_set v.created_at

unfoldable pub accepted : Run → Dict String Published
unfolding is_accepted published
accepted r = keep (λ (k, v). is_accepted v) (published r)
