-- ===== src/Mutate/Batch.antt =====
-- scripts/mutate.py: `main` at its shadow root, a baseline and then one verdict for each row of the
-- batch. The root's own making and removal are those of `Batch.Session`.
pub mod Counts
pub mod Untouched
pub mod Session
use mathlib.Core.List.{flat_map}
use cryptocourt.Base.{
  ℕ, Bool, true, false, not, Option, none, some, List, [], ◌∷◌, ◌++◌, map, length, ◌==◌,
  if◌then◌else◌,
}
use cryptocourt.Base.Text.{Text, codes, join}
use cryptocourt.Base.Decimal.{str_nat}
use cryptocourt.Base.Disk.{Disk}
use cryptocourt.Mutate.Suite.{Row, row_pkg, Toolchain, Suite, run_suite, anchor_count}
use cryptocourt.Mutate.Verdict.{
  Verdict, bad_anchor, unclassified, judge, row_line, survivor_entry, elsewhere_entry, is_nil,
}

-- A row with its verdict.
abbrev pub Judged : Type 0
Judged = Row × Verdict

abbrev pub survivors : List Judged → List Text
survivors = flat_map λ (j : Judged). survivor_entry j.0.label j.1

abbrev pub elsewhere : List Judged → List Text
elsewhere = flat_map λ (j : Judged). elsewhere_entry j.0.label j.0.elsewhere j.1

-- `main` prints the rows that `done` holds, beside the disk that it leaves, and exits with 0 there, with 2 where the baseline fails, and with
-- 1 where the batch is empty. `crashed` is an exception, such as that of an unknown package.
pub data Outcome : Type 0 where
  nothing_to_measure : Outcome
  baseline_hung : List Text → Outcome
  baseline_red : Outcome
  crashed : Outcome
  done : List Judged → Disk → Outcome

abbrev pub indented : List Text → List Text
indented = map (λ s. codes "  " ++ s)

abbrev pub elsewhere_section : List Text → List Text
elsewhere_section [] = []
elsewhere_section (e ∷ es) =
    []
    ∷ (str_nat (length (e ∷ es))
        ++ codes " row(s) survive here BY DESIGN, covered by a suite this harness does not run:")
    ∷ indented (e ∷ es)

-- The line that sums up, without the empty line in front of it.
unfoldable pub summary_line : ℕ → ℕ → Text
summary_line missed total =
    str_nat missed
    ++ (codes " not caught (survived, invalid, or never applied), of " ++ str_nat total)

-- The lines on standard output.
unfoldable pub printed : ℕ → List Judged → List Text
unfolding row_line survivor_entry elsewhere_entry summary_line
printed timeout rows =
    map (λ (j : Judged). row_line timeout j.0.label j.0.elsewhere j.1) rows
    ++ ([]
        ∷ summary_line (length (survivors rows)) (length rows)
        ∷ (indented (survivors rows) ++ elsewhere_section (elsewhere rows)))

-- The line on standard error for a code that is neither a known compile code nor a known runtime one.
unfoldable pub complaint : Text → Text
complaint c =
    codes "mutate: UNCLASSIFIED gno error code "
    ++ (c
        ++ (codes " — this row is counted with the non-results, not as a catch. Decide what "
            ++ (c
                ++ codes
                    " means and add it to COMPILE_CODES or RUNTIME_CODES; common.go's own list ends with 'TODO: add new gno codes here', so this will happen again.")))

abbrev pub unknown_of : Verdict → List Text
unknown_of (unclassified unknown) = unknown
unknown_of _ = []

-- The lines on standard error of a batch that is done.
unfoldable pub complaints : List Judged → List Text
unfolding complaint
complaints = flat_map λ (j : Judged). map complaint (unknown_of j.1)

module _ (tools : Toolchain) (repo root : Text) where
  abbrev pub judge_suite : Row → Option (Suite × Disk) → Option (Verdict × Disk)
  judge_suite m none = none
  judge_suite m (some r) = some (judge m.elsewhere r.0, r.1)

  abbrev pub judge_count : Row → Disk → Option ℕ → Option (Verdict × Disk)
  judge_count m disk none = none
  judge_count m disk (some n) =
      if n == 1
      then judge_suite m (run_suite tools repo root (some (row_pkg m)) (some m) disk)
      else some (bad_anchor n, disk)

  -- The verdict on one row. The suites run only if the anchor occurs exactly once.
  unfoldable pub judge_row : Row → Disk → Option (Verdict × Disk)
  judge_row m disk = judge_count m disk (anchor_count repo disk m)

  unfoldable pub judge_rows : List Row → Disk → Option (List Judged × Disk)
  judge_rows [] disk = some ([], disk)
  judge_rows (m ∷ muts) disk = elim (judge_row m disk) [
    | none ↦ none
    | some v ↦ elim (judge_rows muts v.1) [
      | none ↦ none
      | some rest ↦ some ((m, v.0) ∷ rest.0, rest.1)
    ]
  ]

  abbrev pub conclude : Option (List Judged × Disk) → Outcome
  conclude none = crashed
  conclude (some rows) = done rows.0 rows.1

  abbrev pub after_baseline : List Row → Suite × Disk → Outcome
  after_baseline muts base =
      if not (is_nil base.0.hung)
      then baseline_hung base.0.hung
      else if not base.0.passed
      then baseline_red
      else conclude (judge_rows muts base.1)

  abbrev pub from_baseline : List Row → Option (Suite × Disk) → Outcome
  from_baseline muts none = crashed
  from_baseline muts (some base) = after_baseline muts base

  -- From the baseline on, at a shadow root that stands.
  unfoldable pub main : List Row → Disk → Outcome
  main [] disk = nothing_to_measure
  main (m ∷ muts) disk = from_baseline (m ∷ muts) (run_suite tools repo root none none disk)

-- The exit code; an exception ends Python with 1.
unfoldable pub exit_code : Outcome → ℕ
exit_code nothing_to_measure = 1
exit_code (baseline_hung names) = 2
exit_code baseline_red = 2
exit_code crashed = 1
exit_code (done rows disk) = 0
