-- ===== src/Mutate/Batch/Untouched.antt =====
-- scripts/mutate.py: what a batch at a shadow root that stands leaves of the disk.
use mathlib.Core.Option.{some_inj}
use cryptocourt.Base.{ℕ, ◌≡◌, refl, ◌∙◌, Option, none, some, List, ◌==◌, Bool-cases, inl, inr}
use cryptocourt.Base.Text.{Text}
use cryptocourt.Base.Disk.{Disk}
use cryptocourt.Shadow.Staging.{Outside}
use cryptocourt.Mutate.Suite.{Row, row_pkg, Toolchain, Suite, stage_pairs, run_suite, anchor_count}
use cryptocourt.Mutate.Suite.Sources.{run_suite_outside}
use cryptocourt.Mutate.Verdict.{Verdict}
use cryptocourt.Mutate.Batch.{Judged, judge_suite, judge_count, judge_row, main, done}
use cryptocourt.Mutate.Batch.Counts.{RowsRun, stop, step, main-Finished}

module _ (tools : Toolchain) (repo root p : Text)
    (outside : Outside root (stage_pairs repo) p) where
  judge_suite_outside :
      (m : Row) (disk : Disk) (o : Option (Suite × Disk)) (v : Verdict × Disk)
      → run_suite tools repo root (some (row_pkg m)) (some m) disk ≡ o
      → judge_suite tools repo root m o ≡ some v
      → v.1 p ≡ disk p
  judge_suite_outside m disk none v e h = cc
  judge_suite_outside m disk (some r) v e h =
      rw (← some_inj.0 h)
        (run_suite_outside repo root p outside tools (some (row_pkg m)) (some m) disk r e)

  pub judge_count_outside :
      (m : Row) (disk : Disk) (o : Option ℕ) (v : Verdict × Disk)
      → judge_count tools repo root m disk o ≡ some v
      → v.1 p ≡ disk p
  judge_count_outside m disk none v h = cc
  judge_count_outside m disk (some n) v h = elim (Bool-cases (n == 1)) [
    | inl e ↦ judge_suite_outside m disk _ v refl (rw e at h)
    | inr e ↦ rw (← some_inj.0 (rw e at h))
  ]

  RowsRun-outside :
      {muts : List Row} {disk : Disk} {rows : List Judged} {d : Disk}
      → RowsRun tools repo root muts disk rows d
      → d p ≡ disk p
  unfolding judge_row
  RowsRun-outside stop = refl
  RowsRun-outside (step {m} {disk} {v} e rest) =
      RowsRun-outside rest ∙ judge_count_outside m disk (anchor_count repo disk m) v e

  -- Behind a batch that is done, every path outside the staged trees of the run's own GNOROOT holds
  -- what it held before.
  pub main_outside :
      (muts : List Row) (disk : Disk) (rows : List Judged) (d : Disk)
      → main tools repo root muts disk ≡ done rows d
      → d p ≡ disk p
  main_outside muts disk rows d h =
      let f = main-Finished tools repo root muts disk rows d h in
      RowsRun-outside f.measured
      ∙ run_suite_outside repo root p outside tools none none disk f.base f.ran
