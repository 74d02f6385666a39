-- ===== src/RunCheck/Safety/Sound.antt =====
-- The safety verdict of `check` (experiments/isolation/check.py) passes exactly the runs that its
-- description calls safe.
use event_driven_order_syste.Base.{
  ℕ, suc, String, ◌+◌, ◌≤◌, ◌≡◌, refl, ◌↔◌, ◌∙◌, sym, ap, Bool, true, false, not, Option, none,
  some, List, [], ◌∷◌, arith, ltb, ◌==◌, ==_iff, nat_eq, string_eq, pair_eq, inl, inr, ◌||◌,
  Option-cases,
}
use event_driven_order_syste.Base.Dict.{Dict, lookup, contains}
use event_driven_order_syste.Base.Group.{all-group_by, all-group_by_some}
use event_driven_order_syste.Base.Lists.{
  length, keep, all, All, is_empty, is_empty-keep, is_empty-keep_iff, is_empty-map, range_from,
  Consecutive,
}
use event_driven_order_syste.Base.Sort.{sort_by}
use event_driven_order_syste.Event.{Event}
use event_driven_order_syste.MockApi.Tables.{EffectRow, AttemptRow}
use event_driven_order_syste.RunCheck.Run.{Run, planned_events, is_status}
use event_driven_order_syste.RunCheck.Safety.{
  keys_where, effects_by_event, duplicates, unknown, same_payload, is_mismatch, mismatched,
  index_le, order_of, by_order, seqs, same_list, is_order_break, order_breaks,
  rejected_out_of_order, is_stale_write, stale_writes, safety_passed,
}

-- The effects of one event, in the order of the snapshot.
abbrev pub effects_for : String → Run → List EffectRow
effects_for id r = keep (λ (e : EffectRow). e.event_id == id) r.effects

-- The effects of one order, by effect index.
abbrev pub effects_in : String × ℕ → Run → List EffectRow
effects_in key r = keep (λ (e : EffectRow). order_of e == key) (sort_by index_le r.effects)

-- The first effect of an event is that of a planned event, with its payload.
abbrev pub AsPlanned : Option Event → List EffectRow → Type 0
AsPlanned planned [] = Unit
AsPlanned none (row ∷ rows) = ⊥
AsPlanned (some want) (row ∷ rows) =
    (row.payload.seller_id ≡ want.seller_id)
    × (row.payload.order_id ≡ want.order_id)
    × (row.payload.sequence ≡ want.sequence)
    × (row.payload.operation ≡ want.operation)
    × (row.payload.quantity ≡ want.quantity)
    × (row.payload.price ≡ want.price)

pub record IsSafe (r : Run) : Type 0 where
  pub once : (id : String) → length (effects_for id r) ≤ 1
  pub planned : (id : String) → AsPlanned (lookup id (planned_events r)) (effects_for id r)
  pub ordered : (key : String × ℕ) → Consecutive 0 (seqs (effects_in key r))
  pub in_order_requests : All (λ (a : AttemptRow). is_status 409 a.status ≡ false) r.attempts
  pub current_owner : All (λ t. is_stale_write r.traces t ≡ false) r.traces

is_empty-keys_where :
    {K V : Type 0} (p : K → V → Bool) (d : Dict K V)
    → is_empty (keys_where p d) ≡ all (λ entry. not (p entry.0 entry.1)) d
unfolding keys_where
is_empty-keys_where p d =
    is_empty-map (λ entry. entry.0) (keep (λ entry. p entry.0 entry.1) d)
    ∙ is_empty-keep (λ entry. p entry.0 entry.1) d

same_list_iff :
    (last : ℕ) (ns : List ℕ)
    → (same_list ns (range_from (last + 1) (length ns)) ≡ true) ↔ Consecutive last ns
unfolding same_list
same_list_iff last [] = (λ h. tt, λ h. refl)
same_list_iff last (n ∷ ns) =
    (λ h. ground (arith, (same_list_iff n ns).0), λ h. ground (arith, (same_list_iff n ns).1))

once_iff :
    (r : Run) → (is_empty (duplicates r) ≡ true) ↔ ((id : String) → length (effects_for id r) ≤ 1)
unfolding duplicates effects_by_event
once_iff r =
    let test = λ (k : String) (rows : List EffectRow). ltb 1 (length rows) in
    let (to, from) =
      all-group_by (λ (e : EffectRow). e.event_id) (λ k rows. not (test k rows)) r.effects
        (λ k. refl) in
    let step = is_empty-keys_where test (effects_by_event r) in
    (λ h id. ground (arith, to (sym step ∙ h) id), λ h. step ∙ from (λ k. ground (arith, h k)))

AsPlanned-iff :
    (planned : Dict String Event) (id : String) (rows : List EffectRow)
    → (((is_empty rows || not (not (contains id planned))) ≡ true)
        × ((is_empty rows || not (is_mismatch (lookup id planned) rows)) ≡ true))
      ↔ AsPlanned (lookup id planned) rows
unfolding contains is_mismatch same_payload
AsPlanned-iff planned id [] = (λ h. tt, λ h. (refl, refl))
AsPlanned-iff planned id (row ∷ rows) = elim (Option-cases (lookup id planned)) [
  | inl e ↦ rw e (λ h. ground arith, λ h. absurd h)
  | inr (want, e) ↦ rw e (
    λ h. ground (
      arith,
      ==_iff row.payload.seller_id want.seller_id,
      ==_iff row.payload.operation want.operation,
    ),
    λ h. ground (
      arith,
      ==_iff row.payload.seller_id want.seller_id,
      ==_iff row.payload.operation want.operation,
    ),
  )
]

planned_iff :
    (r : Run)
    → ((is_empty (unknown r) ≡ true) × (is_empty (mismatched r) ≡ true))
      ↔ ((id : String) → AsPlanned (lookup id (planned_events r)) (effects_for id r))
unfolding unknown mismatched effects_by_event
planned_iff r =
    let known = λ (k : String) (rows : List EffectRow). not (contains k (planned_events r)) in
    let wrong =
      λ (k : String) (rows : List EffectRow). is_mismatch (lookup k (planned_events r)) rows in
    let a =
      all-group_by_some (λ (e : EffectRow). e.event_id) (λ k rows. not (known k rows)) r.effects in
    let b =
      all-group_by_some (λ (e : EffectRow). e.event_id) (λ k rows. not (wrong k rows)) r.effects in
    let step_a = is_empty-keys_where known (effects_by_event r) in
    let step_b = is_empty-keys_where wrong (effects_by_event r) in
    (
      λ h id.
          (AsPlanned-iff (planned_events r) id (effects_for id r)).0
            (a.0 (sym step_a ∙ h.0) id, b.0 (sym step_b ∙ h.1) id),
      λ h. (
        step_a ∙ a.1 (λ k. ((AsPlanned-iff (planned_events r) k (effects_for k r)).1 (h k)).0),
        step_b ∙ b.1 (λ k. ((AsPlanned-iff (planned_events r) k (effects_for k r)).1 (h k)).1),
      ),
    )

not-not : (b : Bool) → not (not b) ≡ b
not-not true = refl
not-not false = refl

length-seqs : (rows : List EffectRow) → length (seqs rows) ≡ length rows
length-seqs [] = refl
length-seqs (row ∷ rows) = ap suc (length-seqs rows)

ordered_iff :
    (r : Run)
    → (is_empty (order_breaks r) ≡ true)
      ↔ ((key : String × ℕ) → Consecutive 0 (seqs (effects_in key r)))
unfolding order_breaks by_order is_order_break same_list
ordered_iff r =
    let broken = λ (k : String × ℕ) (rows : List EffectRow). is_order_break (seqs rows) in
    let (to, from) =
      all-group_by order_of (λ k rows. not (broken k rows)) (sort_by index_le r.effects)
        (λ k. order_empty) in
    let step = is_empty-keys_where broken (by_order r) in
    (
      λ h key.
          (same_list_iff 0 (seqs (effects_in key r))).0 (sym (not-not _) ∙ to (sym step ∙ h) key),
      λ h. step ∙ from (λ k. not-not _ ∙ (same_list_iff 0 (seqs (effects_in k r))).1 (h k)),
    )
  where
    order_empty : not (is_order_break []) ≡ true
    order_empty = refl

-- The safety verdict passes exactly when no event has two effects, every effect is that of a
-- planned event with the planned payload, the effects of each order are numbered 1, 2, 3, ... by
-- effect index, no request was answered 409, and no delivery was recorded under a claim older
-- than one that existed before it.
pub safety_passed_iff : (r : Run) → (safety_passed r ≡ true) ↔ IsSafe r
unfolding safety_passed rejected_out_of_order stale_writes
safety_passed_iff r =
    let requests = is_empty-keep_iff (λ (a : AttemptRow). is_status 409 a.status) r.attempts in
    let owners = is_empty-keep_iff (is_stale_write r.traces) r.traces in
    (
      λ h. record {
        once = (once_iff r).0 (ground arith);
        planned = (planned_iff r).0 (ground arith, ground arith);
        ordered = (ordered_iff r).0 (ground arith);
        in_order_requests = requests.0 (ground arith);
        current_owner = owners.0 (ground arith);
      },
      λ s.
          let once = (once_iff r).1 s.once in
          let planned = (planned_iff r).1 s.planned in
          let ordered = (ordered_iff r).1 s.ordered in
          let asked = requests.1 s.in_order_requests in
          let owned = owners.1 s.current_owner in
          rw once (rw planned.0 (rw planned.1 (rw ordered (rw asked owned)))),
    )
