-- ===== src/Mutate/Suite.antt =====
-- scripts/mutate.py: `mutant_builds`, `run_suite`, `where` and `anchor_count`. The toolchain is a
-- parameter: what `gno lint` and `gno test` do in a directory of a disk.
pub mod Sources
pub mod Splice
pub mod Staged
use cryptocourt.Base.{
  ℕ, Bool, true, false, ◌&&◌, Option, none, some, List, [], ◌∷◌, ◌++◌, ◌==◌, if◌then◌else◌,
}
use cryptocourt.Base.Text.{Text, codes, strip, count, replace}
use cryptocourt.Base.Disk.{Files, Disk, join_path, write_dir, get_file, put_file}
use cryptocourt.Shadow.{stage, unstage}
use cryptocourt.Mutate.Tables.{pkg_table, observer_table, find_pkg, pkg_names, pkg_pairs}

-- A mutation; a missing `pkg` is the realm, and a missing `elsewhere` is empty.
pub record Row : Type 0 where
  pub file : Text
  pub label : Text
  pub find : Text
  pub substitute : Text
  pub pkg : Option Text
  pub elsewhere : Text

unfoldable pub row_pkg : Row → Text
row_pkg m = elim m.pkg [ none ↦ codes "govern" | some p ↦ p ]

-- How a subprocess ends: its exit code, standard output and error, or the timeout, with what it had
-- written by then.
pub data Run : Type 0 where
  finished : ℕ → Text → Text → Run
  timed_out : Text → Text → Run

pub record Toolchain : Type 0 where
  pub lint : Disk → Text → Run
  pub test : Disk → Text → Run

-- What `run_suite` returns.
pub record Suite : Type 0 where
  pub passed : Bool
  pub out : Text
  pub hung : List Text
  pub built : Bool

-- The directory of a package in the repository, as a key of the disk.
module _ (repo : Text) where
  abbrev pub source_dir : Text → Text
  source_dir rel = join_path repo rel

  abbrev pub absolute : List (Text × Text) → List (Text × Text)
  absolute [] = []
  absolute ((src, rel) ∷ pairs) = (source_dir src, rel) ∷ absolute pairs

  -- `PKGS.values()`, with absolute source directories.
  abbrev pub stage_pairs : List (Text × Text)
  stage_pairs = absolute pkg_pairs

module _ (tools : Toolchain) (root : Text) where
  unfoldable pub mutant_builds : Text → Disk → Bool × Text
  mutant_builds rel disk = elim (tools.lint disk (join_path root rel)) [
    | timed_out out errs ↦ (false, codes "gno lint timed out")
    | finished code out errs ↦ (code == 0, strip (out ++ errs))
  ]

  -- The suites in turn; one that hangs is named, and the next one runs.
  unfoldable pub run_tests : List Text → Disk → Suite → Suite
  run_tests [] disk s = s
  run_tests (n ∷ names) disk s = run_tests names disk (elim (find_pkg n pkg_table) [
    | none ↦ s
    | some dirs ↦ elim (tools.test disk (join_path root dirs.1)) [
      | timed_out out errs ↦ record s {
        passed = false;
        out = s.out ++ (out ++ errs);
        hung = s.hung ++ n ∷ [];
      }
      | finished code out errs ↦ record s {
        passed = s.passed && (code == 0);
        out = s.out ++ (out ++ errs);
      }
    ]
  ])

-- The text of the row's file in the staged copy, with the mutation put in; `none` is the error of
-- a package or a file that is not there.
unfoldable pub apply_mutation : Text → Row → Disk → Option Disk
apply_mutation root m disk = elim (find_pkg (row_pkg m) pkg_table) [
  | none ↦ none
  | some dirs ↦
      let dir = join_path root dirs.1 in
      elim (get_file m.file (disk dir)) [
        | none ↦ none
        | some text ↦
            some
              (write_dir dir (put_file m.file (replace m.find m.substitute text) (disk dir)) disk)
      ]
]

abbrev start : Suite
start = record { passed = true; out = []; hung = []; built = true }

-- The suites that are run: the observers of a package, or all.
unfoldable pub suite_names : Option Text → List Text
suite_names none = pkg_names
suite_names (some []) = pkg_names
suite_names (some (c ∷ p)) = elim (find_pkg (c ∷ p) observer_table) [
  | none ↦ pkg_names
  | some names ↦ names
]

-- The staged path of the row's package.
unfoldable pub row_rel : Row → Text
row_rel m = elim (find_pkg (row_pkg m) pkg_table) [ none ↦ [] | some dirs ↦ dirs.1 ]

module _ (tools : Toolchain) (repo root : Text) where
  -- The suites on the disk as it is now, and the trees removed.
  unfoldable pub test_and_clear : List Text → Suite → Disk → Suite × Disk
  test_and_clear names s disk = (
    run_tests tools root (if s.built then names else []) disk s,
    unstage root (stage_pairs repo) disk,
  )

  abbrev lint_result : Bool × Text → Suite
  lint_result (true, out) = start
  lint_result (false, out) = record { passed = false; out = out; hung = []; built = false }

  -- The rest of a cycle behind the mutating step.
  abbrev pub lint_and_test : List Text → Row → Option Disk → Option (Suite × Disk)
  lint_and_test names m none = none
  lint_and_test names m (some mutated) =
      some
        (test_and_clear names (lint_result (mutant_builds tools root (row_rel m) mutated)) mutated)

  -- One cycle: stage, mutate, lint, test, remove. `none` is an exception of the mutating step.
  unfoldable pub run_suite : Option Text → Option Row → Disk → Option (Suite × Disk)
  run_suite pkg none disk =
      some (test_and_clear (suite_names pkg) start (stage root (stage_pairs repo) disk))
  run_suite pkg (some m) disk =
      lint_and_test (suite_names pkg) m (apply_mutation root m (stage root (stage_pairs repo) disk))

-- `where`, as the directory and the file; `none` is the exit for a package that is not there.
unfoldable pub row_path : Text → Row → Option (Text × Text)
row_path repo m = elim (find_pkg (row_pkg m) pkg_table) [
  | none ↦ none
  | some dirs ↦ some (source_dir repo dirs.0, m.file)
]

-- How often the row's anchor occurs in its source; `none` when there is no such file.
unfoldable pub anchor_count : Text → Disk → Row → Option ℕ
anchor_count repo disk m = elim (row_path repo m) [
  | none ↦ none
  | some path ↦ elim (get_file path.1 (disk path.0)) [
    | none ↦ none
    | some text ↦ some (count m.find text)
  ]
]
