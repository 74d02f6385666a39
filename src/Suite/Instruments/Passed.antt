-- ===== src/Suite/Instruments/Passed.antt =====
-- What a passed instrument check (experiments/isolation/suite.py) says of its records.
use event_driven_order_syste.Base.{
  ℕ, ◌≤◌, ◌<◌, ◌≡◌, ◌∙◌, inl, inr, Bool, true, ◌&&◌, List, [], ◌∷◌, ◌==◌, nat_eq, map, arith,
  Bool-cases,
}
use event_driven_order_syste.Base.Lists.{All, length, count_if, keep}
use event_driven_order_syste.RunCheck.Latency.{signed_pct}
use event_driven_order_syste.RunCheck.Stats.{q99}
use event_driven_order_syste.Suite.Instruments.{
  Sent, is_ok, is_at_most, late_ms, client_extra_ms, g0_source, g0_mock,
}

count_if-le : {A : Type 0} (p : A → Bool) (xs : List A) → count_if p xs ≤ length xs
count_if-le p [] = omega arith
count_if-le p (x ∷ xs) = ground (arith, count_if-le p xs)

count_if_full :
    {A : Type 0} (p : A → Bool) (xs : List A) → count_if p xs ≡ length xs → All (λ x. p x ≡ true) xs
count_if_full p [] h = tt
count_if_full p (x ∷ xs) h = elim (Bool-cases (p x)) [
  | inl e ↦ (e, count_if_full p xs (ground (arith, e, h)))
  | inr e ↦ absurd (ground (arith, e, h, count_if-le p xs))
]

both_equal :
    (accepted n number : ℕ) (rest : Bool)
    → (accepted == n && number == accepted && rest) ≡ true
    → (accepted ≡ n) × (number ≡ accepted)
both_equal accepted n number rest h = ground (arith, h)

-- All three parts of a verdict on a load that is not empty.
load_passed :
    (r : Sent) (rs : List Sent) (number : ℕ) (rest : Bool)
    → (count_if is_ok (r ∷ rs) == length (r ∷ rs) && number == count_if is_ok (r ∷ rs) && rest)
      ≡ true
    → (0 < length (r ∷ rs)) × All (λ r. is_ok r ≡ true) (r ∷ rs) × (number ≡ length (r ∷ rs))
load_passed r rs number rest h =
    let (accepted, same) = both_equal (count_if is_ok (r ∷ rs)) (length (r ∷ rs)) number rest h in
    (omega arith, count_if_full is_ok (r ∷ rs) accepted, same ∙ accepted)

-- The source check passes only on a load of which every event was accepted and published once,
-- and the mock check only on one of which every event was answered with 200 and has one effect;
-- neither passes on an empty load.
pub g0_passed :
    (records : List Sent) (number : ℕ)
    → ((g0_source records number).passed ≡ true
        → (0 < length records) × All (λ r. is_ok r ≡ true) records × (number ≡ length records))
      × ((g0_mock records number).passed ≡ true
          → (0 < length records) × All (λ r. is_ok r ≡ true) records × (number ≡ length records))
unfolding g0_source g0_mock signed_pct
g0_passed [] number = (λ h. absurd (ground (arith, h)), λ h. absurd (ground (arith, h)))
g0_passed (r ∷ rs) number = (
  load_passed r rs number (is_at_most 10 (signed_pct (map late_ms (r ∷ rs)) q99)),
  load_passed r rs number
      (is_at_most 5 (signed_pct (map client_extra_ms (keep is_ok (r ∷ rs))) q99)),
)
