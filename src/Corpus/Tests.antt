-- ===== src/Corpus/Tests.antt =====
-- A corpus of one row, a Makefile of two targets, and the batch that follows.
use cryptocourt.Base.{
  ◌≡◌, ◌↔◌, refl, Bool, true, false, Option, none, some, List, [], ◌∷◌, map, All, any,
  if◌then◌else◌,
}
use cryptocourt.Base.Text
use cryptocourt.Base.Closure
use cryptocourt.Mutate.Suite
use cryptocourt.Mutate.Output
use cryptocourt.Mutate.Batch
use cryptocourt.Mutate.Verdict
use cryptocourt.Shadow
use cryptocourt.Corpus.Makefile
use cryptocourt.Corpus.Rows
use cryptocourt.Base.Text.{Text, codes, ◌=text◌, contains, count, text_in, split, newline}
use cryptocourt.Base.Disk.{
  Disk, Files, get_file, join_path, is_under, remove_tree, write_dir, put_file,
}
use cryptocourt.Base.Closure.{Reach, walk}
use cryptocourt.Shadow.{stage, is_staged_file, staged_files}
use cryptocourt.Mutate.Tables.{pkg_table, find_pkg}
use cryptocourt.Mutate.Suite.{
  Row, row_pkg, Run, finished, Toolchain, Suite, source_dir, stage_pairs, apply_mutation, run_suite,
}
use cryptocourt.Mutate.Batch.{Judged, Outcome, done, main}
use cryptocourt.Corpus.Makefile.{
  deps_of, recipe_of, parse_makefile, reached_targets, routinely_run, runs, runs_txtar, Routine,
}
use cryptocourt.Corpus.Makefile.Runs.{routinely_run-Reach}
use cryptocourt.Corpus.Rows.{
  RawRow, Entry, object, other, Resolved, Triple, Placed, required, row_verdicts, cross_verdicts,
  mutations, labels, same_key,
}
use cryptocourt.Corpus.Guard.{CorpusFile, items, guard_exit, check_anchors}
use cryptocourt.Corpus.Guard.Healthy.{AreHealthy, check_anchors-AreHealthy}
use cryptocourt.Corpus.Batch.{resolve, row_of, Reads, no_rows, one_row, is_bad_anchor, IsReady}
use cryptocourt.Corpus.Batch.Promise.{Unstaged, main-no_bad_anchor}
use cryptocourt.Corpus.Batch.Complete.{judge_row-crash, main_complete}

abbrev repo : Text
repo = codes "/r"

abbrev root : Text
root = codes "/g"

abbrev sources : Files
sources = (codes "a.gno", codes "if x > y") ∷ []

abbrev repository : Disk
repository p = if p =text codes "/r/realm/r/govern" then sources else []

abbrev raw : RawRow
raw = record {
  file = some (codes "a.gno");
  find = some (codes ">");
  substitute = some (codes "<=");
  pkg = none;
  label = some (codes "flip");
  elsewhere = none;
}

abbrev nothing_there : Text → Bool
nothing_there p = false

abbrev always : Text → Routine
always p = runs

abbrev pairs : List Placed
pairs = (codes "a.json", object raw) ∷ (codes "b.json", object raw) ∷ []

abbrev corpora : List (Text × CorpusFile)
corpora = (codes "scripts/mutations-a.json", items (object raw ∷ [])) ∷ []

check_anchors-AreHealthy_example :
    (guard_exit (check_anchors nothing_there always (resolve repo repository) corpora) ≡ 0)
    ↔ AreHealthy nothing_there always (resolve repo repository) corpora
check_anchors-AreHealthy_example =
    check_anchors-AreHealthy nothing_there always (resolve repo repository) corpora

abbrev makefile : Text
makefile = codes "check: txtar-test\n\ntxtar-test:\n\tgo test -tags txtar ./gnoland/\n"

is_txtar : Text.ends_with (codes ".txtar") (codes "a.txtar") ≡ true
unfolding Text.ends_with Text.starts_with Text.drop_prefix codes
is_txtar = refl

routinely_run-Reach_example : (routinely_run (codes "a.txtar") (some makefile) ≡ runs) ↔ (
    (t : Text) × Reach (deps_of (parse_makefile makefile)) (codes "check" ∷ []) t
    × (any runs_txtar (split newline (recipe_of (parse_makefile makefile) t)) ≡ true))
routinely_run-Reach_example = routinely_run-Reach (codes "a.txtar") makefile is_txtar

makefile-runs : routinely_run (codes "a.txtar") (some makefile) ≡ runs
unfolding routinely_run reached_targets parse_makefile Makefile.reached_recipes runs_txtar split
    deps_of recipe_of Makefile.deps_onto Makefile.targets Makefile.target_line Makefile.split_colon
    Makefile.is_target_name Makefile.is_target_rest Makefile.ended_lines Makefile.recipe_lines walk
    Closure.successors Text.words Text.is_space Text.join Text.ends_with Text.starts_with
    Text.drop_prefix contains codes ◌=text◌ Output.sorted_set Output.insert_text Output.text_le
    Output.is_word text_in
makefile-runs = refl

abbrev triple : Triple
triple = record { at_file = codes "a.gno"; anchor = codes ">"; swap = codes "<=" }

abbrev flip : Row
flip = row_of (codes "flip") triple raw

raw-Reads : Reads (raw ∷ []) (flip ∷ [])
unfolding required
raw-Reads = one_row raw (codes "flip") triple refl refl no_rows

rows_clean : row_verdicts nothing_there always (resolve repo repository) (object raw ∷ []) ≡ []
unfolding row_verdicts Rows.row_problems Rows.label_problems Rows.is_line_numbered Rows.raw_pkg
    Rows.anchor_problems Rows.elsewhere_problems required resolve find_pkg get_file count codes
    ◌=text◌ Output.span Output.is_word Text.drop_prefix join_path
rows_clean = refl

sources_Unstaged : Unstaged repo root pkg_table
unfolding is_under join_path ◌=text◌ codes Text.starts_with Text.drop_prefix
sources_Unstaged = (
  (refl, (refl, (refl, (refl, (refl, (refl, (refl, (refl, (refl, tt))))))))),
  (
    (refl, (refl, (refl, (refl, (refl, (refl, (refl, (refl, (refl, tt))))))))),
    (
      (refl, (refl, (refl, (refl, (refl, (refl, (refl, (refl, (refl, tt))))))))),
      (
        (refl, (refl, (refl, (refl, (refl, (refl, (refl, (refl, (refl, tt))))))))),
        (
          (refl, (refl, (refl, (refl, (refl, (refl, (refl, (refl, (refl, tt))))))))),
          (
            (refl, (refl, (refl, (refl, (refl, (refl, (refl, (refl, (refl, tt))))))))),
            (
              (refl, (refl, (refl, (refl, (refl, (refl, (refl, (refl, (refl, tt))))))))),
              (
                (refl, (refl, (refl, (refl, (refl, (refl, (refl, (refl, (refl, tt))))))))),
                ((refl, (refl, (refl, (refl, (refl, (refl, (refl, (refl, (refl, tt))))))))), tt),
              ),
            ),
          ),
        ),
      ),
    ),
  ),
)

-- A toolchain under which every suite passes.
abbrev passing : Toolchain
passing = record {
  lint = λ disk dir. finished 0 [] [];
  test = λ disk dir. finished 0 (codes "ok") [];
}

abbrev outcome : Outcome
outcome = main passing repo root (flip ∷ []) repository

abbrev rows_of : Outcome → List Judged
rows_of (done rows disk) = rows
rows_of _ = []

abbrev disk_of : Outcome → Disk
disk_of (done rows disk) = disk
disk_of _ = repository

outcome_done : outcome ≡ done (rows_of outcome) (disk_of outcome)
unfolding main run_suite Suite.test_and_clear Suite.run_tests Suite.suite_names find_pkg ◌=text◌
    codes get_file stage Batch.judge_rows Batch.judge_row Suite.anchor_count Suite.row_path row_of
    row_pkg Shadow.unstage count is_under join_path put_file remove_tree write_dir Text.drop_prefix
    Text.ends_with Text.starts_with Text.text_in Text.is_space Text.lstrip Text.rstrip Text.strip
    Text.words Text.replace Output.build_errors Output.error_codes Output.insert_text Output.is_word
    Output.sorted_set Output.span Output.test_hits Output.text_le Output.upto_last apply_mutation
    Suite.mutant_builds Suite.row_rel Verdict.broke Verdict.judge Verdict.unknown_codes
    Shadow.is_staged_file Shadow.stage_one Shadow.staged_files
outcome_done = refl

main-no_bad_anchor_example : All (λ (j : Judged). is_bad_anchor j.1 ≡ false) (rows_of outcome)
main-no_bad_anchor_example =
    main-no_bad_anchor nothing_there always repo root repository sources_Unstaged passing (raw ∷ [])
      (flip ∷ []) (rows_of outcome) (disk_of outcome) rows_clean raw-Reads outcome_done

flip_staged : All (λ (m : Row). is_staged_file m.file ≡ true) (flip ∷ [])
unfolding row_of is_staged_file Text.ends_with Text.starts_with Text.drop_prefix codes ◌=text◌
flip_staged = (refl, tt)

abbrev baseline : Option (Suite × Disk)
baseline = run_suite passing repo root none none repository

abbrev suite_of : Option (Suite × Disk) → Suite × Disk
suite_of none = (record { passed = false; out = []; hung = []; built = false }, repository)
suite_of (some s) = s

baseline_ran : baseline ≡ some (suite_of baseline)
unfolding run_suite
baseline_ran = refl

baseline_calm : (suite_of baseline).0.hung ≡ []
unfolding run_suite Suite.test_and_clear Suite.run_tests Suite.suite_names find_pkg ◌=text◌ codes
baseline_calm = refl

baseline_passed : (suite_of baseline).0.passed ≡ true
unfolding run_suite Suite.test_and_clear Suite.run_tests Suite.suite_names find_pkg ◌=text◌ codes
baseline_passed = refl

main_complete_example :
    (judged : List Judged) × (d : Disk) × (main passing repo root (flip ∷ []) repository
      ≡ done judged d)
    × (map (λ (j : Judged). j.0) judged ≡ flip ∷ [])
main_complete_example =
    main_complete nothing_there always passing repo root repository (raw ∷ []) flip []
      (suite_of baseline) sources_Unstaged rows_clean raw-Reads flip_staged baseline_ran
      baseline_calm baseline_passed

flip-IsReady : IsReady repo root repository flip
unfolding row_of row_pkg find_pkg get_file count codes ◌=text◌ Text.drop_prefix join_path
flip-IsReady = record {
  dirs = (codes "realm/r/govern", codes "examples/gno.land/r/kourt/govern");
  known = refl;
  text = codes "if x > y";
  held = refl;
  once = refl;
  apart = sources_Unstaged.0;
}

judge_row-crash_example :
    (Batch.judge_row passing repo root flip repository ≡ none) ↔ (is_staged_file flip.file ≡ false)
judge_row-crash_example = judge_row-crash passing repo root repository flip flip-IsReady

govern_known :
    find_pkg (codes "govern") pkg_table
    ≡ some (codes "realm/r/govern", codes "examples/gno.land/r/kourt/govern")
unfolding find_pkg ◌=text◌ codes
govern_known = refl
