-- ===== src/Selftest/Run.antt =====
-- scripts/selftest-checks.py: the coverage of the guards, and the run as a whole. `found` are the
-- names of scripts/check-*.py, and `tracked` the names that `git ls-files` gives, or `none` where it
-- fails.
use cryptocourt.Base.{ℕ, not, Option, none, some, List, [], ◌∷◌, ◌++◌, map, keep}
use cryptocourt.Base.Text.{Text, codes, text_in, join}
use cryptocourt.Selftest.Repo.{Repo}
use cryptocourt.Selftest.Arms.{Run}
use cryptocourt.Selftest.Session.{Arm, run_arms}
use cryptocourt.Selftest.Exprs.{Expr, build}
use cryptocourt.Selftest.Anchors.{Call}
use cryptocourt.Selftest.Vacuity.{Vacuous, vacuity_audit}

unfoldable pub runners : List Text
runners = codes "mutate.py" ∷ codes "gnoroot.py" ∷ codes "mutate-parallel.py" ∷ []

-- The guards that owe the run a control: those that are committed, and the runners. The source
-- reports those without one in sorted order.
unfoldable pub owing : (found : List Text) → (tracked : Option (List Text)) → List Text
unfolding text_in runners
owing found none = runners
owing found (some tracked) = keep (λ g. text_in g tracked) found ++ runners

unfoldable pub coverage :
    (found : List Text) → (tracked : Option (List Text)) → (exercised : List Text) → List Text
unfolding owing text_in
coverage found tracked exercised =
    failed tracked
    ++ map (λ g. g ++ codes " has no control")
        (keep (λ g. not (text_in g exercised)) (owing found tracked))
  where
    failed : Option (List Text) → List Text
    failed none = codes "coverage could not determine which guards are committed" ∷ []
    failed (some names) = []

unfoldable pub objections : List Vacuous → List Text
unfolding join
objections [] = []
objections (v ∷ vs) =
    (v.label
      ++ (codes " wants a string " ++ (join (codes " ") v.argv ++ codes " prints when it passes")))
    ∷ objections vs

-- The module that is audited: its assignments and its calls of `control`.
pub record Source : Type 0 where
  pub body : List (Text × Expr)
  pub calls : List Call

module _ (run : Run) (root : Text) (prepended : Text → Text → Option Text) where
  -- The failures of the whole run; `none` where an arm raises.
  unfoldable pub all_failures :
      (found : List Text)
      → (tracked : Option (List Text)) → Source
      → List Arm
      → Repo
      → Option (List Text)
  unfolding run_arms coverage build vacuity_audit objections
  all_failures found tracked source arms repo =
      elim (run_arms run root prepended arms
        (record { failures = []; exercised = []; repo = repo })) [
          | none ↦ none
          | some s ↦
              let consts = build source.body ((codes "REPO", root) ∷ []) in
              some (
                s.failures
                ++ (coverage found tracked s.exercised
                    ++ objections (vacuity_audit run root consts s.repo source.calls).bad))
        ]

  -- The exit code.
  unfoldable pub selftest :
      (found : List Text) → (tracked : Option (List Text)) → Source → List Arm → Repo → ℕ
  unfolding all_failures
  selftest found tracked source arms repo = elim (all_failures found tracked source arms repo) [
    | none ↦ 1
    | some [] ↦ 0
    | some (f ∷ fs) ↦ 1
  ]
