-- ===== src/RunCheck/Observability/Truth.antt =====
-- The backlog that the observability verdict rebuilds (experiments/isolation/check.py).
use event_driven_order_syste.Base.{
  ℕ, ◌+◌, ◌-◌, ◌≡◌, refl, ◌∙◌, sym, ap, String, Bool, true, false, ◌&&◌, Option, none, some, List,
  [], ◌∷◌, leb, ltb, nat_eq, string_eq, if◌then◌else◌, arith, Bool-cases, inl, inr, Option-cases,
}
use mathlib.Core.Option.{some-injective}
use event_driven_order_syste.Base.Dict.{Dict, lookup}
use event_driven_order_syste.Base.Lists.{All, count_if}
use event_driven_order_syste.Base.Sort.{
  IsOrder, IsSorted, sort_by, sort_by-IsSorted, count_if-sort_by,
}
use event_driven_order_syste.Event.{Event}
use event_driven_order_syste.RunCheck.Run.{Run, planned_events}
use event_driven_order_syste.RunCheck.Window.{bisect_right}
use event_driven_order_syste.RunCheck.Observability.{
  Sample, Row, target_ms, created, effect_at, created_le, by_creation, is_waiting, scan, known_at,
  row_of, row_from, set_default,
}

-- Accepted at least `target_ms` before `t`, and without an effect until `t`.
abbrev pub is_overdue : Dict String ℕ → (t : ℕ) → String × ℕ → Bool
is_overdue effects t kv = is_waiting effects t kv.0 && leb (kv.1 + target_ms) t

scan-count :
    (planned : Dict String Event) (effects : Dict String ℕ) (t : ℕ) (items : List (String × ℕ))
    (overdue : ℕ) (oldest : Dict String ℕ) (n : ℕ) (last : Dict String ℕ)
    → scan planned effects t items overdue oldest ≡ some (n, last)
    → n ≡ overdue + count_if (is_overdue effects t) items
unfolding scan
scan-count planned effects t [] overdue oldest n last h =
    let same = ap (λ (p : ℕ × Dict String ℕ). p.0) (some-injective _ _ h) in omega (arith, same)
scan-count planned effects t ((k, c) ∷ rest) overdue oldest n last h =
    elim (Bool-cases (is_waiting effects t k)) [
      | inr e ↦
          let more = scan-count planned effects t rest overdue oldest n last (rw (e, scan) at h) in
          ground (arith, more, e)
      | inl e ↦ elim (Option-cases (lookup k planned)) [
        | inl f ↦ absurd (cc (rw f at (rw (e, scan) at h)))
        | inr (v, f) ↦
            let more =
              scan-count planned effects t rest
                (if leb (c + target_ms) t then overdue + 1 else overdue)
                (set_default v.seller_id (t - c) oldest) n last (rw f at (rw (e, scan) at h)) in
            ground (arith, more, e)
      ]
    ]

created_le-IsOrder : IsOrder created_le
created_le-IsOrder = record { total = λ a b h. ground arith; trans = λ a b c h k. ground arith }

module _ (p : String × ℕ → Bool) (t : ℕ)
    (early : (kv : String × ℕ) → p kv ≡ true → leb kv.1 t ≡ true) where
  count_if-late :
      (c : ℕ) (k : String) (items : List (String × ℕ))
      → leb c t ≡ false
      → All (λ kv. created_le (k, c) kv ≡ true) items
      → count_if p items ≡ 0
  count_if-late c k [] late h = refl
  count_if-late c k (kv ∷ rest) late h = elim (Bool-cases (p kv)) [
    | inl e ↦ let soon = early kv e in absurd (ground (arith, h.0))
    | inr e ↦ ground (arith, e, count_if-late c k rest late h.1)
  ]

  count_if-known_at :
      (items : List (String × ℕ))
      → IsSorted created_le items
      → count_if p (known_at t items) ≡ count_if p items
  unfolding known_at bisect_right
  count_if-known_at [] o = refl
  count_if-known_at ((k, c) ∷ rest) o = elim (Bool-cases (leb c t)) [
    | inl e ↦ rw e (ap (λ n. (if p (k, c) then 1 else 0) + n) (count_if-known_at rest o.1))
    | inr e ↦ elim (Bool-cases (p (k, c))) [
      | inl f ↦ let soon = early (k, c) f in absurd (cc (soon, e))
      | inr f ↦ rw e (ground (arith, f, count_if-late c k rest e o.0))
    ]
  ]

row_from-some :
    (s : Sample) (o : Option (ℕ × Dict String ℕ)) (row : Row)
    → row_from s o ≡ some row
    → (n : ℕ) × (last : Dict String ℕ) × (o ≡ some (n, last)) × (row.truth ≡ ltb 0 n)
unfolding row_from
row_from-some s none row h = absurd (cc h)
row_from-some s (some (n, last)) row h =
    (n, last, refl, sym (ap (λ (q : Row). q.truth) (some-injective _ _ h)))

-- When the checker rebuilds a row, its truth is whether some accepted event was, at the sample's
-- time, accepted for `target_ms` or longer and without an effect.
pub row_of-truth :
    (r : Run) (s : Sample) (row : Row)
    → row_of r s ≡ some row
    → row.truth ≡ ltb 0 (count_if (is_overdue (effect_at r) s.time) (created r))
unfolding row_of by_creation
row_of-truth r s row h =
    let (n, last, e, truth) = row_from-some s _ row h in
    let counted = scan-count (planned_events r) (effect_at r) s.time _ 0 [] n last e in
    let known =
      count_if-known_at (is_overdue (effect_at r) s.time) s.time (λ kv f. ground arith)
        (sort_by created_le (created r))
        (sort_by-IsSorted created_le created_le-IsOrder (created r)) in
    let moved = count_if-sort_by created_le (is_overdue (effect_at r) s.time) (created r) in
    truth ∙ ap (ltb 0) (omega (arith, counted, known, moved))
