-- ===== src/Corpus/Batch/Complete.antt =====
-- scripts/check-mutation-anchors.py before scripts/mutate.py: when a batch runs to its end.
use cryptocourt.Base.{
  ◌≡◌, ◌↔◌, refl, ap, ◌∙◌, Bool, true, false, Option, none, some, List, [], ◌∷◌, map, All,
  if◌then◌else◌, Bool-cases, inl, inr,
}
use cryptocourt.Base.Text.{Text}
use cryptocourt.Base.Disk.{Disk, get_file, join_path}
use cryptocourt.Shadow.{is_staged_file, stage}
use cryptocourt.Mutate.Tables.{pkg_table}
use cryptocourt.Mutate.Suite.{
  Row, row_pkg, Toolchain, Suite, source_dir, stage_pairs, run_suite, lint_and_test, suite_names,
  anchor_count, apply_mutation,
}
use cryptocourt.Mutate.Suite.Sources.{apply_mutation-some, apply_mutation-none, run_suite_outside}
use cryptocourt.Mutate.Suite.Staged.{stage-find_pkg, get_file-staged_files}
use cryptocourt.Mutate.Batch.{Judged, judge_suite, judge_count, judge_row, judge_rows, main, done}
use cryptocourt.Mutate.Batch.Untouched.{judge_count_outside}
use cryptocourt.Mutate.Verdict.{Verdict}
use cryptocourt.Mutate.Batch.Counts.{main-done}
use cryptocourt.Corpus.Makefile.{Routine}
use cryptocourt.Corpus.Rows.{RawRow, object, row_verdicts}
use cryptocourt.Corpus.Rows.Sound.{row_verdicts-nil}
use cryptocourt.Corpus.Batch.{resolve, Reads, IsReady, All-IsReady, anchor_count-IsReady}
use cryptocourt.Corpus.Batch.Promise.{Unstaged, Reads-IsReady}

module _ (tools : Toolchain) (repo root : Text) where
  -- What the row's staged directory holds of its file.
  staged_file :
      (disk : Disk) (m : Row) (r : IsReady repo root disk m)
      → get_file m.file (stage root (stage_pairs repo) disk (join_path root r.dirs.1))
        ≡ (if is_staged_file m.file then some r.text else none)
  staged_file disk m r =
      ap (get_file m.file) (stage-find_pkg repo root (row_pkg m) r.dirs disk r.known r.apart)
      ∙ get_file-staged_files m.file (disk (source_dir repo r.dirs.0))
      ∙ ap (λ o. if is_staged_file m.file then o else none) r.held

  judge_row-suite :
      (disk : Disk) (m : Row)
      → IsReady repo root disk m
      → judge_row tools repo root m disk
        ≡ judge_suite tools repo root m (run_suite tools repo root (some (row_pkg m)) (some m) disk)
  unfolding judge_row
  judge_row-suite disk m r =
      ap (judge_count tools repo root m disk) (anchor_count-IsReady repo root disk m r)

  -- The rest of a cycle behind the mutating step.
  abbrev judge_mutated : Row → Option Disk → Option (Verdict × Disk)
  judge_mutated m o =
      judge_suite tools repo root m
        (lint_and_test tools repo root (suite_names (some (row_pkg m))) m o)

  judge_row-mutated :
      (disk : Disk) (m : Row)
      → IsReady repo root disk m
      → judge_row tools repo root m disk
        ≡ judge_mutated m (apply_mutation root m (stage root (stage_pairs repo) disk))
  unfolding run_suite
  judge_row-mutated disk m r = judge_row-suite disk m r

  judge_row-some :
      (disk : Disk) (m : Row)
      → IsReady repo root disk m
      → is_staged_file m.file ≡ true
      → (v : Verdict × Disk) × (judge_row tools repo root m disk ≡ some v)
  judge_row-some disk m r e =
      let there = rw e at (staged_file disk m r) in
      let same = judge_row-mutated disk m r in
      (
        _,
        same
            ∙ ap (judge_mutated m)
                (apply_mutation-some root m (stage root (stage_pairs repo) disk) r.known there),
      )

  judge_row-none :
      (disk : Disk) (m : Row)
      → IsReady repo root disk m
      → is_staged_file m.file ≡ false
      → judge_row tools repo root m disk ≡ none
  judge_row-none disk m r e =
      let there = rw e at (staged_file disk m r) in
      judge_row-mutated disk m r
      ∙ ap (judge_mutated m)
          (apply_mutation-none root m (stage root (stage_pairs repo) disk) r.known there)

  -- A row whose anchor occurs once in its source file, as the guard of the corpus has it, still ends the whole
  -- batch with an exception exactly if its file is one that staging leaves out: neither a `.gno` file nor the manifest.
  pub judge_row-crash :
      (disk : Disk) (m : Row)
      → IsReady repo root disk m
      → (judge_row tools repo root m disk ≡ none) ↔ (is_staged_file m.file ≡ false)
  judge_row-crash disk m r = (
    λ h. elim (Bool-cases (is_staged_file m.file)) [
      | inl e ↦ let (v, s) = judge_row-some disk m r e in absurd (cc (h, s))
      | inr e ↦ e
    ],
    λ e. judge_row-none disk m r e,
  )

  judge_rows-some :
      (muts : List Row) (disk : Disk)
      → All (IsReady repo root disk) muts
      → All (λ (m : Row). is_staged_file m.file ≡ true) muts
      → (r : List Judged × Disk) × (judge_rows tools repo root muts disk ≡ some r)
  unfolding judge_rows judge_row
  judge_rows-some [] disk h k = (_, refl)
  judge_rows-some (m ∷ muts) disk (h, hs) (k, ks) =
      let (v, e) = judge_row-some disk m h k in
      let kept =
        All-IsReady repo root disk v.1 muts
          (λ p out. judge_count_outside tools repo root p out m disk (anchor_count repo disk m) v e)
          hs in
      let (rest, f) = judge_rows-some muts v.1 kept ks in
      (((m, v.0) ∷ rest.0, rest.1), rw (e, judge_rows, f) refl)

  main-some :
      (m : Row) (muts : List Row) (disk : Disk) (base : Suite × Disk) (r : List Judged × Disk)
      → run_suite tools repo root none none disk ≡ some base
      → base.0.hung ≡ []
      → base.0.passed ≡ true
      → judge_rows tools repo root (m ∷ muts) base.1 ≡ some r
      → main tools repo root (m ∷ muts) disk ≡ done r.0 r.1
  unfolding main
  main-some m muts disk base r e calm passed h = rw (e, calm, passed, h) refl

module _ (exists : Text → Bool) (routine : Text → Routine) (tools : Toolchain)
    (repo root : Text) where
  -- Where the guard finds nothing wrong with the rows of a corpus, of which there is one at least, the sources are
  -- outside the staged trees, every row names a file that staging copies, and the baseline passes, the batch over
  -- these rows ends with a verdict for each.
  pub main_complete :
      (disk : Disk) (rows : List RawRow) (m : Row) (muts : List Row) (base : Suite × Disk)
      → Unstaged repo root pkg_table
      → row_verdicts exists routine (resolve repo disk) (map object rows) ≡ []
      → Reads rows (m ∷ muts)
      → All (λ (x : Row). is_staged_file x.file ≡ true) (m ∷ muts)
      → run_suite tools repo root none none disk ≡ some base
      → base.0.hung ≡ []
      → base.0.passed ≡ true
      → (judged : List Judged) × (d : Disk) × (main tools repo root (m ∷ muts) disk ≡ done judged d)
        × (map (λ (j : Judged). j.0) judged ≡ m ∷ muts)
  main_complete disk rows m muts base apart clean reads copied ran calm passed =
      let sound = (row_verdicts-nil exists routine (resolve repo disk) (map object rows)).0 clean in
      let ready = Reads-IsReady exists routine repo root disk apart reads sound in
      let kept =
        All-IsReady repo root disk base.1 (m ∷ muts)
          (λ p out. run_suite_outside repo root p out tools none none disk base ran) ready in
      let (r, e) = judge_rows-some tools repo root (m ∷ muts) base.1 kept copied in
      let finish = main-some tools repo root m muts disk base r ran calm passed e in
      (r.0, r.1, finish, (main-done tools repo root (m ∷ muts) disk r.0 r.1 finish).0)
