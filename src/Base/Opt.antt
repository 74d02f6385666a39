-- ===== src/Base/Opt.antt =====
-- Chains of steps that may raise: `none` is the exception.
use event_driven_order_syste.Base.{Option, none, some, List, [], ◌∷◌}

infixl 5 ◌>>=◌
abbrev pub ◌>>=◌ {ℓ κ} : {A : Type ℓ} {B : Type κ} → Option A → (A → Option B) → Option B
none >>= f = none
some a >>= f = f a

module _ {ℓ} {A : Type ℓ} where
  -- `[x for x in xs if x]`, for values that are true unless they are None
  abbrev pub present : List (Option A) → List A
  present [] = []
  present (none ∷ xs) = present xs
  present (some a ∷ xs) = a ∷ present xs

  -- `[f(x) for x in xs]` where `f` may raise
  abbrev pub map_all {κ} : {B : Type κ} → (A → Option B) → List A → Option (List B)
  map_all f [] = some []
  map_all f (x ∷ xs) = do y ← f x; ys ← map_all f xs; some (y ∷ ys)
