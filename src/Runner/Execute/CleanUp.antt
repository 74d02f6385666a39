-- ===== src/Runner/Execute/CleanUp.antt =====
-- A run (experiments/isolation/runner.py) stops its processes whatever part of it raises.
use event_driven_order_syste.Base.{
  ◌≡◌, ◌↔◌, ap, refl, inl, inr, Bool, true, false, ◌&&◌, List, [], ◌∷◌, ◌++◌, arith, if◌then◌else◌,
  Bool-cases, nat_eq, ◌==◌,
}
use event_driven_order_syste.Base.Lists.{All, any}
use event_driven_order_syste.Runner.Execute.{
  Part, plan, stop_observer, kill_load, collect, stop_all, check, code, mentions, body, try_parts,
  finally, end_run, is_started, start_observer, start_load, collect_and_stop, execute_run,
}

any-append {ℓ} :
    {A : Type ℓ} (p : A → Bool) (xs ys : List A)
    → any p (xs ++ ys) ≡ (if any p xs then true else any p ys)
any-append p [] ys = refl
any-append p (x ∷ xs) ys = ground (arith, any-append p xs ys)

module _ (raises : Part → Bool) (load_runs : Bool) where
  -- A list of parts of which none raises is done.
  try_parts_fine :
      (ps : List Part) → All (λ p. raises p ≡ false) ps → try_parts raises load_runs ps ≡ (ps, true)
  unfolding try_parts
  try_parts_fine [] h = refl
  try_parts_fine (p ∷ ps) h = rw (h.0, try_parts_fine ps h.1) refl

  try_parts_ok :
      (ps : List Part) → (try_parts raises load_runs ps).1 ≡ true → All (λ p. raises p ≡ false) ps
  unfolding try_parts
  try_parts_ok [] h = tt
  try_parts_ok (p ∷ ps) h = elim (Bool-cases (raises p)) [
    | inl e ↦ absurd (ground (arith, e, h))
    | inr e ↦ (e, try_parts_ok ps (ground (arith, e, h)))
  ]

  finally-fine :
      (stop_observer_fine : raises stop_observer ≡ false)
      → raises kill_load ≡ false
      → (tried : List Part) → All (λ p. raises p ≡ false) (finally raises load_runs tried)
  finally-fine s k tried = elim (Bool-cases (is_started raises load_runs tried start_observer)) [
    | inl e ↦ elim (Bool-cases (is_started raises load_runs tried start_load && load_runs)) [
      | inl f ↦ rw (e, f) (s, (k, tt))
      | inr f ↦ rw (e, f) (s, tt)
    ]
    | inr e ↦ elim (Bool-cases (is_started raises load_runs tried start_load && load_runs)) [
      | inl f ↦ rw (e, f) (k, tt)
      | inr f ↦ rw (e, f) tt
    ]
  ]

  abbrev CleansUp : List Part × Bool → Type 0
  CleansUp (log, checked) = (mentions log collect ≡ true) × (mentions log stop_all ≡ true)

  mentions-end :
      (xs ys : List Part) (p : Part) → mentions ys p ≡ true → mentions (xs ++ ys) p ≡ true
  mentions-end xs ys p h = ground (arith, any-append (λ q. code q == code p) xs ys, h)

  mentions-front :
      (xs ys : List Part) (p : Part) → mentions xs p ≡ true → mentions (xs ++ ys) p ≡ true
  mentions-front xs ys p h = ground (arith, any-append (λ q. code q == code p) xs ys, h)

  stops :
      (done : List Part) (p : Part)
      → mentions (collect ∷ stop_all ∷ []) p ≡ true
      → mentions (done ++ collect ∷ stop_all ∷ []) p ≡ true
  stops done p h = mentions-end done (collect ∷ stop_all ∷ []) p h

  end_run-CleansUp :
      raises stop_observer ≡ false
      → raises kill_load ≡ false
      → (tried : List Part) (ok : Bool) → CleansUp (end_run raises load_runs tried ok)
  unfolding end_run
  end_run-CleansUp s k tried ok =
      let fine = try_parts_fine (finally raises load_runs tried) (finally-fine s k tried) in
      let done = tried ++ finally raises load_runs tried in
      let last : List Part = collect ∷ stop_all ∷ [] in
      elim (Bool-cases (ok && (collect_and_stop raises load_runs).1)) [
        | inl e ↦
            rw (end_run, fine, e)
              (
                mentions-front (done ++ last) (check ∷ []) collect (stops done collect refl),
                mentions-front (done ++ last) (check ∷ []) stop_all (stops done stop_all refl),
              )
        | inr e ↦ rw (end_run, fine, e) (stops done collect refl, stops done stop_all refl)
      ]

  -- The parts after the `try` whose exceptions end the run.
  abbrev pub after_body : List Part
  after_body = collect ∷ stop_all ∷ check ∷ []

  All-join :
      (xs ys : List Part)
      → All (λ p. raises p ≡ false) xs
      → All (λ p. raises p ≡ false) ys
      → All (λ p. raises p ≡ false) (xs ++ ys)
  All-join [] ys h k = k
  All-join (x ∷ xs) ys h k = (h.0, All-join xs ys h.1 k)

  All-split :
      (xs ys : List Part)
      → All (λ p. raises p ≡ false) (xs ++ ys)
      → All (λ p. raises p ≡ false) xs × All (λ p. raises p ≡ false) ys
  All-split [] ys h = (tt, h)
  All-split (x ∷ xs) ys h = let (first, rest) = All-split xs ys h.1 in ((h.0, first), rest)

  end_run_ok :
      (tried : List Part) (ok : Bool)
      → (end_run raises load_runs tried ok).1 ≡ true
      → (ok ≡ true) × All (λ p. raises p ≡ false) after_body
  unfolding end_run
  end_run_ok tried ok h =
      elim (Bool-cases (try_parts raises load_runs (finally raises load_runs tried)).1) [
        | inl e ↦ (
          ground (arith, e, h),
          (ground (arith, e, h), (ground (arith, e, h), (ground (arith, e, h), tt))),
        )
        | inr e ↦ absurd (ground (arith, e, h))
      ]

  end_run_fine :
      (tried : List Part) (ok : Bool)
      → All (λ p. raises p ≡ false) (finally raises load_runs tried)
      → ok ≡ true
      → All (λ p. raises p ≡ false) after_body
      → (end_run raises load_runs tried ok).1 ≡ true
  unfolding end_run
  end_run_fine tried ok calm good h =
      rw (end_run, try_parts_fine (finally raises load_runs tried) calm)
        (ground (arith, good, h.0, h.1.0, h.1.1.0))

  -- When the plan is built and the observer and the load generator can be stopped, a run tries to
  -- collect its files and to stop the services, whatever else raises; and it writes its checks
  -- exactly when no part of it raises, the collecting, the stopping and the checker included.
  pub execute_run_cleans_up :
      raises plan ≡ false
      → raises stop_observer ≡ false
      → raises kill_load ≡ false
      → let (log, checked) = execute_run raises load_runs in
        (mentions log collect ≡ true)
        × (mentions log stop_all ≡ true)
        × ((checked ≡ true) ↔ All (λ p. raises p ≡ false) (body ++ after_body))
  unfolding execute_run
  execute_run_cleans_up p s k =
      let (tried, ok) = try_parts raises load_runs body in
      let (c, a) = end_run-CleansUp s k tried ok in
      let fine_end = finally-fine s k tried in
      rw p (
        ground (arith, c),
        ground (arith, a),
        (
          λ h.
              let (good, rest) = end_run_ok tried ok h in
              All-join body after_body (try_parts_ok body good) rest,
          λ h.
              let (first, rest) = All-split body after_body h in
              let good : ok ≡ true =
                ap (λ (r : List Part × Bool). r.1) (try_parts_fine body first) in
              end_run_fine tried ok fine_end good rest,
        ),
      )
