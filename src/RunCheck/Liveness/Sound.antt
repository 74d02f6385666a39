-- ===== src/RunCheck/Liveness/Sound.antt =====
-- The liveness verdict of `check` (experiments/isolation/check.py) passes exactly the runs in which
-- every accepted operation reached the seller and nothing is left over.
use event_driven_order_syste.Base.{
  String, ◌≡◌, ◌↔◌, Bool, true, false, not, List, [], ◌∷◌, arith, string_eq,
}
use event_driven_order_syste.Base.Dict.{lookup, contains}
use event_driven_order_syste.Base.Group.{contains-group_by}
use event_driven_order_syste.Base.Lists.{keep, All, is_empty, is_empty-keep_iff, length-keep_iff}
use event_driven_order_syste.MockApi.Tables.{EffectRow}
use event_driven_order_syste.RunCheck.Run.{Run, planned_events, published, accepted}
use event_driven_order_syste.RunCheck.Safety.{effects_by_event}
use event_driven_order_syste.RunCheck.Safety.Sound.{effects_for}
use event_driven_order_syste.RunCheck.Liveness.{
  undelivered, pending_delivered, not_accepted, is_refused, refused, liveness_passed,
}

-- The seller has an effect of the event.
abbrev pub is_delivered : Run → String → Bool
is_delivered r id = not (is_empty (effects_for id r))

pub record IsLive (r : Run) : Type 0 where
  pub delivered : All (λ entry. is_delivered r entry.0 ≡ true) (accepted r)
  pub released : is_empty r.held_permits ≡ true
  pub settled : All (λ id. is_delivered r id ≡ false) r.open_inbox
  pub explained :
      All
        (λ entry. is_refused (lookup entry.0 (published r)) ≡ true)
        (keep (λ entry. not (contains entry.0 (accepted r))) (planned_events r))

All-iff {ℓ} :
    {A : Type ℓ} (p q : A → Bool) (b c : Bool)
    → ((x : A) → p x ≡ b → q x ≡ c)
    → (xs : List A) → All (λ x. p x ≡ b) xs
    → All (λ x. q x ≡ c) xs
All-iff p q b c f [] h = tt
All-iff p q b c f (x ∷ xs) h = (f x h.0, All-iff p q b c f xs h.1)

is_delivered-eq : (r : Run) (id : String) → contains id (effects_by_event r) ≡ is_delivered r id
unfolding effects_by_event
is_delivered-eq r id = contains-group_by (λ (e : EffectRow). e.event_id) id r.effects

-- The liveness verdict passes exactly when every accepted event has an effect, no permit is held,
-- no row of the inbox belongs to a delivered event, and every planned event that was not accepted
-- was refused with 429.
pub liveness_passed_iff : (r : Run) → (liveness_passed r ≡ true) ↔ IsLive r
unfolding liveness_passed undelivered pending_delivered not_accepted refused
liveness_passed_iff r =
    let missing =
      is_empty-keep_iff (λ entry. not (contains entry.0 (effects_by_event r))) (accepted r) in
    let pending = is_empty-keep_iff (λ id. contains id (effects_by_event r)) r.open_inbox in
    let lost = keep (λ entry. not (contains entry.0 (accepted r))) (planned_events r) in
    let explained = length-keep_iff (λ entry. is_refused (lookup entry.0 (published r))) lost in
    (
      λ h. record {
        delivered =
            All-iff _ _ false true (λ x e. ground (arith, is_delivered-eq r x.0)) (accepted r)
              (missing.0 (ground arith));
        released = ground arith;
        settled =
            All-iff _ _ false false (λ id e. ground (arith, is_delivered-eq r id)) r.open_inbox
              (pending.0 (ground arith));
        explained = explained.0 (ground arith);
      },
      λ l.
          let a = missing.1 (
            All-iff _ _ true false (λ x e. ground (arith, is_delivered-eq r x.0)) (accepted r)
              l.delivered) in
          let b = pending.1 (
            All-iff _ _ false false (λ id e. ground (arith, is_delivered-eq r id)) r.open_inbox
              l.settled) in
          let c = explained.1 l.explained in rw a (rw l.released (rw b (ground arith))),
    )
