-- ===== src/EvidencePaths/Kept.antt =====
-- Which paths `validate_evidence_path` (experiments/evidence_paths.py) accepts.
use event_driven_order_syste.Base.{
  ◌≡◌, ◌↔◌, inl, inr, Bool-cases, Option-cases, ◌==◌, refl, ap, ◌∙◌, subst, String, Bool, true,
  false, Option, none, some, List, [], ◌∷◌, ◌++◌, ==_iff, string_eq,
}
use event_driven_order_syste.EvidencePaths.{
  Location, Git, accepted, relative_to, judge_git, judge_path, validate_evidence_path,
}

relative_to-append : (repo rest : Location) → relative_to (repo ++ rest) repo ≡ some rest
unfolding relative_to
relative_to-append [] rest = refl
relative_to-append (r ∷ repo) rest =
    rw (relative_to, (==_iff r r).1 refl) (relative_to-append repo rest)

-- Inside the repository: not its root, ignored by git, and without a tracked file.
abbrev pub IsKept : Git → Location → Type 0
IsKept git [] = ⊥
IsKept git (x ∷ xs) = (git.is_ignored (x ∷ xs) ≡ true) × (git.tracked (x ∷ xs) ≡ some [])

judge_git-accepted :
    (path p : Location) (ignored : Bool) (tracked : Option (List String))
    → judge_git path ignored tracked ≡ accepted p
    → (p ≡ path) × (ignored ≡ true) × (tracked ≡ some [])
judge_git-accepted path p ignored none h = absurd (cc h)
judge_git-accepted path p false (some files) h = absurd (cc h)
judge_git-accepted path p true (some []) h = (cc h, refl, refl)
judge_git-accepted path p true (some (f ∷ files)) h = absurd (cc h)

judge_path-accepted :
    (git : Git) (path p : Location) (relative : Option Location)
    → judge_path git path relative ≡ accepted p
    → (p ≡ path) × ((rest : Location) → relative ≡ some rest → IsKept git rest)
judge_path-accepted git path p none h = (cc h, λ rest e. absurd (cc e))
judge_path-accepted git path p (some []) h = absurd (cc h)
judge_path-accepted git path p (some (x ∷ xs)) h =
    let (same, ignored, untracked) =
      judge_git-accepted path p (git.is_ignored (x ∷ xs)) (git.tracked (x ∷ xs)) h in
    let kept : IsKept git (x ∷ xs) = (ignored, untracked) in
    (same, λ rest e. let equal : (x ∷ xs) ≡ rest = cc e in subst (IsKept git) equal kept)

relative_to-inside :
    (path repo rest : Location) → relative_to path repo ≡ some rest → path ≡ repo ++ rest
unfolding relative_to
relative_to-inside path [] rest h = cc h
relative_to-inside [] (r ∷ repo) rest h = absurd (cc h)
relative_to-inside (p ∷ path) (r ∷ repo) rest h = elim (Bool-cases (p == r)) [
  | inl e ↦
      let head = (==_iff p r).0 e in
      let tail = relative_to-inside path repo rest (rw (relative_to, e) at h) in
      rw (head, tail) refl
  | inr e ↦ absurd (cc (rw (relative_to, e) at h))
]

judge_path-kept :
    (git : Git) (path rest : Location)
    → IsKept git rest
    → judge_path git path (some rest) ≡ accepted path
judge_path-kept git path [] h = absurd h
judge_path-kept git path (x ∷ xs) h = rw (h.0, h.1) refl

-- The path that is accepted is the resolved one, and it is accepted exactly when it lies outside the
-- repository, or is a part of it that is not its root, that git ignores, and in which git says that
-- no file is tracked.
pub validate_evidence_path_iff :
    (resolve : String → Location) (git : Git) (repo p : Location) (path : String)
    → (validate_evidence_path resolve git repo path ≡ accepted p)
      ↔ ((p ≡ resolve path) × ((rest : Location) → resolve path ≡ repo ++ rest → IsKept git rest))
unfolding validate_evidence_path
validate_evidence_path_iff resolve git repo p path =
    let full = resolve path in
    (
      λ h.
          let (same, kept) = judge_path-accepted git full p (relative_to full repo) h in
          (
            same,
            λ rest inside.
                kept rest (ap (λ q. relative_to q repo) inside ∙ relative_to-append repo rest),
          ),
      λ h. elim (Option-cases (relative_to full repo)) [
        | inl e ↦ rw (e, h.0) refl
        | inr (rest, e) ↦
            rw (e, h.0)
              (judge_path-kept git full rest (h.1 rest (relative_to-inside full repo rest e)))
      ],
    )
