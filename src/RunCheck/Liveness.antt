-- ===== src/RunCheck/Liveness.antt =====
-- The liveness verdict of `check` (experiments/isolation/check.py).
pub mod Sound
use event_driven_order_syste.Base.{
  ℕ, String, Bool, true, false, not, ◌&&◌, Option, none, some, List, leb, string_eq, nat_eq,
}
use event_driven_order_syste.Base.Dict.{Dict, lookup, contains}
use event_driven_order_syste.Base.Lists.{length, keep, is_empty}
use event_driven_order_syste.Event.{Event}
use event_driven_order_syste.RunCheck.Run.{
  Run, Published, planned_events, published, accepted, is_status,
}
use event_driven_order_syste.RunCheck.Safety.{effects_by_event}

-- The accepted events without an effect.
unfoldable pub undelivered : Run → Dict String Published
undelivered r = keep (λ entry. not (contains entry.0 (effects_by_event r))) (accepted r)

-- The rows that the inbox still holds though the seller has them.
unfoldable pub pending_delivered : Run → List String
pending_delivered r = keep (λ id. contains id (effects_by_event r)) r.open_inbox

unfoldable pub not_accepted : Run → Dict String Event
not_accepted r = keep (λ entry. not (contains entry.0 (accepted r))) (planned_events r)

-- `(published.get(k) or {}).get('status') == 429`
abbrev pub is_refused : Option Published → Bool
is_refused none = false
is_refused (some v) = is_status 429 v.status

unfoldable pub refused : Run → Dict String Event
unfolding not_accepted
refused r = keep (λ entry. is_refused (lookup entry.0 (published r))) (not_accepted r)

unfoldable pub liveness_passed : Run → Bool
liveness_passed r =
    is_empty (undelivered r)
    && (is_empty r.held_permits
        && (is_empty (pending_delivered r) && leb (length (not_accepted r)) (length (refused r))))
