-- ===== src/Suite/Rate/Stable.antt =====
-- The stability rule (`stable_at_80` of experiments/isolation/suite.py).
use event_driven_order_syste.Base.{
  ℕ, ◌+◌, ◌*◌, ◌≤◌, ◌<◌, ◌≡◌, refl, ◌⊎◌, inl, inr, true, ◌↔◌, List, [], ◌∷◌, arith,
}
use event_driven_order_syste.Base.Int.{
  ℤ, pos, negsuc, sub_ℕ, -ℤ_parts, int_laws, pos_part, neg_part,
}
use event_driven_order_syste.Base.Lists.{count_if}
use event_driven_order_syste.Suite.Rate.{
  Step, in_step, before, backlog, growth, arrived, completed, stable_at_80,
}

before-split :
    (t1 t2 : ℕ) (xs : List ℕ) → t1 ≤ t2 → before t2 xs ≡ before t1 xs + count_if (in_step t1 t2) xs
before-split t1 t2 [] h = refl
before-split t1 t2 (x ∷ xs) h = ground (arith, before-split t1 t2 xs h)

sub_ℕ_parts : (a b : ℕ) → pos_part (sub_ℕ a b) + b ≡ neg_part (sub_ℕ a b) + a
sub_ℕ_parts a b = ground arith

-- The backlog grows by what arrives, less what is completed.
growth_parts :
    (s : Step) → s.t1 ≤ s.t2 → pos_part (growth s) + completed s ≡ arrived s + neg_part (growth s)
unfolding growth arrived completed backlog
growth_parts s h = omega (
  int_laws,
  -ℤ_parts (backlog s s.t2) (backlog s s.t1),
  sub_ℕ_parts (before s.t2 s.created) (before s.t2 s.done),
  sub_ℕ_parts (before s.t1 s.created) (before s.t1 s.done),
  before-split s.t1 s.t2 s.created h,
  before-split s.t1 s.t2 s.done h,
)

pos_or_neg : (z : ℤ) → (pos_part z ≡ 0) ⊎ (neg_part z ≡ 0)
pos_or_neg (pos n) = inr refl
pos_or_neg (negsuc n) = inl refl

-- The rule on the backlog adds nothing: a step whose end is not before its beginning is stable
-- when events arrived in it and 95% as many were completed in it.
pub stable_at_80_iff :
    (s : Step)
    → s.t1 ≤ s.t2
    → (stable_at_80 s ≡ true) ↔ ((0 < arrived s) × (95 * arrived s ≤ 100 * completed s))
unfolding stable_at_80
stable_at_80_iff s h =
    let e = growth_parts s h in
    let either = pos_or_neg (growth s) in
    (λ k. ground (arith, k), λ k. ground (arith, k, e, either))
