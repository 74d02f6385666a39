-- ===== src/RunCheck/Safety.antt =====
-- The safety verdict of `check` (experiments/isolation/check.py).
pub mod Sound
use event_driven_order_syste.Base.{
  ℕ, String, ◌+◌, Bool, true, false, not, ◌&&◌, ◌||◌, Option, none, some, List, [], ◌∷◌, map, ltb,
  leb, ◌==◌, nat_eq, string_eq, pair_eq, if◌then◌else◌,
}
use event_driven_order_syste.Base.Dict.{Dict, lookup, contains}
use event_driven_order_syste.Base.Group.{group_by, or_nil}
use event_driven_order_syste.Base.Lists.{length, keep, any, is_empty, range_from}
use event_driven_order_syste.Base.Sort.{sort_by}
use event_driven_order_syste.Event.{Event}
use event_driven_order_syste.MockApi.Tables.{EffectRow, AttemptRow}
use event_driven_order_syste.RunCheck.Run.{
  Run, Trace, claimed, business_commit, other_stage, planned_events, is_status,
}

module _ {K V : Type 0} where
  -- `[k for k, v in d.items() if p(k, v)]`
  unfoldable pub keys_where : (K → V → Bool) → Dict K V → List K
  keys_where p d = map (λ entry. entry.0) (keep (λ entry. p entry.0 entry.1) d)

unfoldable pub effects_by_event : Run → Dict String (List EffectRow)
effects_by_event r = group_by (λ (e : EffectRow). e.event_id) r.effects

unfoldable pub duplicates : Run → List String
unfolding keys_where effects_by_event
duplicates r = keys_where (λ k rows. ltb 1 (length rows)) (effects_by_event r)

unfoldable pub unknown : Run → List String
unfolding keys_where effects_by_event
unknown r = keys_where (λ k rows. not (contains k (planned_events r))) (effects_by_event r)

-- The six fields that are compared.
unfoldable pub same_payload : Event → Event → Bool
same_payload got want =
    got.seller_id == want.seller_id
    && (got.order_id == want.order_id
        && (got.sequence == want.sequence
            && (got.operation == want.operation
                && (got.quantity == want.quantity && got.price == want.price))))

-- Of a planned event the first row's payload is compared; an unknown event is skipped.
unfoldable pub is_mismatch : Option Event → List EffectRow → Bool
unfolding same_payload
is_mismatch none rows = false
is_mismatch (some want) [] = false
is_mismatch (some want) (row ∷ rows) = not (same_payload row.payload want)

unfoldable pub mismatched : Run → List String
unfolding keys_where effects_by_event is_mismatch
mismatched r =
    keys_where (λ k rows. is_mismatch (lookup k (planned_events r)) rows) (effects_by_event r)

abbrev pub index_le : EffectRow → EffectRow → Bool
index_le a b = leb a.effect_index b.effect_index

abbrev pub order_of : EffectRow → String × ℕ
order_of e = (e.seller_id, e.order_id)

unfoldable pub by_order : Run → Dict (String × ℕ) (List EffectRow)
by_order r = group_by order_of (sort_by index_le r.effects)

abbrev pub seqs : List EffectRow → List ℕ
seqs rows = map (λ (e : EffectRow). e.seq) rows

-- `==` of two lists of numbers
unfoldable pub same_list : List ℕ → List ℕ → Bool
same_list [] [] = true
same_list (x ∷ xs) (y ∷ ys) = if x == y then same_list xs ys else false
same_list _ _ = false

unfoldable pub is_order_break : List ℕ → Bool
unfolding same_list
is_order_break ns = not (same_list ns (range_from 1 (length ns)))

unfoldable pub order_breaks : Run → List (String × ℕ)
unfolding keys_where by_order is_order_break
order_breaks r = keys_where (λ k rows. is_order_break (seqs rows)) (by_order r)

unfoldable pub rejected_out_of_order : Run → List AttemptRow
rejected_out_of_order r = keep (λ (a : AttemptRow). is_status 409 a.status) r.attempts

-- A claim of the event with a newer generation, made before `time`.
abbrev pub is_newer_claim : (event_id : String) (time generation : ℕ) → Trace → Bool
is_newer_claim id time generation (claimed id' time' generation') =
    id' == id && (ltb generation generation' && ltb time' time)
is_newer_claim id time generation (business_commit id' time' g) = false
is_newer_claim id time generation other_stage = false

abbrev pub is_stale_write : List Trace → Trace → Bool
is_stale_write all_traces (business_commit id time (some generation)) =
    any (is_newer_claim id time generation) all_traces
is_stale_write all_traces (business_commit id time none) = false
is_stale_write all_traces (claimed id time generation) = false
is_stale_write all_traces other_stage = false

unfoldable pub stale_writes : Run → List Trace
stale_writes r = keep (is_stale_write r.traces) r.traces

unfoldable pub safety_passed : Run → Bool
safety_passed r =
    is_empty (duplicates r)
    && (is_empty (unknown r)
        && (is_empty (mismatched r)
            && (is_empty (order_breaks r)
                && (is_empty (rejected_out_of_order r) && is_empty (stale_writes r)))))
