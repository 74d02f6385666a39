-- ===== src/EvidencePaths.antt =====
-- Where evidence may be written: `validate_evidence_path` of experiments/evidence_paths.py. A
-- resolved path is the list of its parts, from the root. What `git` answers is a parameter.
pub mod Kept
use event_driven_order_syste.Base.{
  String, Bool, true, false, Option, none, some, List, [], ◌∷◌, ◌==◌, string_eq, if◌then◌else◌,
}

abbrev pub Location : Type 0
Location = List String

-- `git check-ignore -q` on a directory, and the output of `git ls-files`, which raises on failure;
-- both of a path relative to the repository.
pub record Git : Type 0 where
  pub is_ignored : Location → Bool
  pub tracked : Location → Option (List String)

-- What the function returns, a SystemExit, or a CalledProcessError.
pub data Answer : Type 0 where
  accepted : Location → Answer
  overwrites_repository : Answer
  is_not_ignored : Answer
  git_fails : Answer

-- `path.relative_to(REPO)`; REPO is the path itself or one of its parents exactly if it is `some`.
unfoldable pub relative_to : (path repo : Location) → Option Location
relative_to path [] = some path
relative_to [] (r ∷ repo) = none
relative_to (p ∷ path) (r ∷ repo) = if p == r then relative_to path repo else none

-- `if ignored.returncode != 0 or tracked.stdout`
abbrev pub judge_git :
    (path : Location) (is_ignored : Bool) (tracked : Option (List String)) → Answer
judge_git path ignored none = git_fails
judge_git path false (some files) = is_not_ignored
judge_git path true (some []) = accepted path
judge_git path true (some (f ∷ files)) = is_not_ignored

abbrev pub judge_path : Git → (path : Location) (relative : Option Location) → Answer
judge_path git path none = accepted path
judge_path git path (some []) = overwrites_repository
judge_path git path (some (x ∷ xs)) =
    judge_git path (git.is_ignored (x ∷ xs)) (git.tracked (x ∷ xs))

-- `resolve` is `Path(path).expanduser().resolve()`.
unfoldable pub validate_evidence_path :
    (resolve : String → Location) → Git → (repo : Location) → (path : String) → Answer
unfolding relative_to
validate_evidence_path resolve git repo path =
    judge_path git (resolve path) (relative_to (resolve path) repo)
