-- ===== src/Mutate/Tests.antt =====
-- A batch of two rows on a small repository: one mutation is caught, one is not applied.
use cryptocourt.Base.{
  ◌+◌, ◌≡◌, ◌≢◌, ◌↔◌, refl, Bool, true, false, Option, none, some, List, [], ◌∷◌, ◌++◌, map, length,
  if◌then◌else◌,
}
use cryptocourt.Base.Text
use cryptocourt.Mutate.Suite
use cryptocourt.Mutate.Output
use cryptocourt.Mutate.Batch
use cryptocourt.Shadow
use cryptocourt.Base.Text.{Text, codes, ◌=text◌, contains, count}
use cryptocourt.Base.Text.Laws.{=text_refl}
use cryptocourt.Base.Disk.{
  Disk, Files, get_file, join_path, is_under, remove_tree, write_dir, put_file,
}
use cryptocourt.Shadow.{stage}
use cryptocourt.Mutate.Tables.{pkg_table, find_pkg}
use cryptocourt.Mutate.Suite.{
  Row, row_pkg, Run, finished, Toolchain, Suite, stage_pairs, apply_mutation, run_suite,
}
use cryptocourt.Mutate.Suite.Splice.{apply_mutation_once}
use cryptocourt.Mutate.Verdict.{unknown_codes, judge, is_caught, broke, judge-is_caught}
use cryptocourt.Mutate.Batch.{Judged, survivors, elsewhere, Outcome, done, nothing_to_measure, main}
use cryptocourt.Mutate.Batch.Counts.{caught_rows, main-done}
use cryptocourt.Mutate.Batch.Session.{run, run_outside}
use cryptocourt.Base.{ℕ, arith, ◌≢◌, if◌then◌else◌, ◌==◌}
use cryptocourt.Base.Text.{starts_with}
use cryptocourt.Base.Decimal
use cryptocourt.Base.Text.Lines.{Lacks}
use cryptocourt.Base.Int.{ℤ, pos, negsuc}
use cryptocourt.Lock.{Signal, delivered, no_process}
use cryptocourt.Shadow.Roots
use cryptocourt.Shadow.Roots.{empty, Roots, Checkout, is_gone, root_name}
use cryptocourt.Shadow.Roots.Owned.{find_root}
use cryptocourt.Shadow.Session
use cryptocourt.Shadow.Session.{Process}

abbrev govern : Text
govern = codes "/r/realm/r/govern"

abbrev staged : Text
staged = codes "/g/examples/gno.land/r/kourt/govern"

abbrev sources : Files
sources = (codes "a.gno", codes "if x > y") ∷ (codes "b.txt", codes "x") ∷ []

abbrev repository : Disk
repository p = if p =text govern then sources else []

abbrev flip : Row
flip = record {
  file = codes "a.gno";
  label = codes "flip";
  find = codes ">";
  substitute = codes "<=";
  pkg = none;
  elsewhere = [];
}

abbrev drop : Row
drop = record flip { label = codes "drop"; find = codes "!" }

abbrev mutated : Option Text → Bool
mutated none = false
mutated (some text) = contains (codes "<") text

-- The lint passes, and a suite fails on the flipped file.
abbrev tools : Toolchain
tools = record {
  lint = λ disk dir. finished 0 [] [];
  test = λ disk dir.
      if mutated (get_file (codes "a.gno") (disk dir))
      then finished 1 (codes "TestOrder failed") []
      else finished 0 (codes "ok") [];
}

abbrev batch : List Row
batch = flip ∷ drop ∷ []

abbrev outcome : Outcome
outcome = main tools (codes "/r") (codes "/g") batch repository

abbrev rows_of : Outcome → List Judged
rows_of (done rows disk) = rows
rows_of _ = []

abbrev disk_of : Outcome → Disk
disk_of (done rows disk) = disk
disk_of _ = repository

outcome_done : outcome ≡ done (rows_of outcome) (disk_of outcome)
unfolding main run_suite Suite.test_and_clear Suite.run_tests Suite.suite_names find_pkg ◌=text◌
    codes get_file stage contains Batch.judge_rows Batch.judge_row Suite.anchor_count Suite.row_path
    row_pkg Shadow.unstage count is_under join_path put_file remove_tree write_dir Text.drop_prefix
    Text.ends_with Text.starts_with Text.text_in Text.is_space Text.lstrip Text.rstrip Text.strip
    Text.words Text.replace Output.build_errors Output.error_codes Output.insert_text Output.is_word
    Output.sorted_set Output.span Output.test_hits Output.text_le Output.upto_last apply_mutation
    Suite.mutant_builds Suite.row_rel broke judge unknown_codes Shadow.is_staged_file
    Shadow.stage_one Shadow.staged_files
outcome_done = refl

main-done_example :
    (map (λ (j : Judged). j.0) (rows_of outcome) ≡ batch)
    × (length (survivors (rows_of outcome))
          + length (elsewhere (rows_of outcome))
          + length (caught_rows (rows_of outcome))
        ≡ 2)
main-done_example =
    main-done tools (codes "/r") (codes "/g") batch repository (rows_of outcome) (disk_of outcome)
      outcome_done

abbrev gno : Checkout
gno = record { path = codes "/home/gno"; names = codes "gnovm" ∷ []; examples = empty }

abbrev at_home : Text → Option Checkout
at_home path = some gno

-- The processes are 41, which lives and has a root, and 50, which runs the batch.
abbrev one_lives : ℤ → Signal
one_lives (pos n) = if n == 41 then delivered else no_process
one_lives (negsuc n) = no_process

abbrev roots : Roots
roots =
    (root_name (codes "court") (codes "mutate") 41, record { links = []; examples = empty }) ∷ []

abbrev runner : Process
runner = record { who = codes "court"; base = codes "/g"; pid = 50 }

abbrev session : Option (Outcome × Roots)
session =
    run at_home (some (codes "/home/gno")) one_lives tools (codes "/r") runner batch repository
      roots

abbrev outcome_of : Option (Outcome × Roots) → Outcome
outcome_of none = nothing_to_measure
outcome_of (some r) = r.0

abbrev after_of : Option (Outcome × Roots) → Roots
after_of none = []
after_of (some r) = r.1

session_done :
    session
    ≡ some (done (rows_of (outcome_of session)) (disk_of (outcome_of session)), after_of session)
unfolding run main run_suite Roots.build codes Suite.test_and_clear Suite.run_tests
    Suite.suite_names find_pkg get_file stage Decimal.str_nat contains Batch.judge_rows
    Batch.judge_row Suite.anchor_count Suite.row_path row_pkg Shadow.unstage count is_under
    join_path put_file remove_tree write_dir Text.drop_prefix Text.ends_with starts_with
    Text.text_in ◌=text◌ Text.is_space Text.lstrip Text.rstrip Text.strip Text.words Text.replace
    Output.build_errors Output.error_codes Output.insert_text Output.is_word Output.sorted_set
    Output.span Output.test_hits Output.text_le Output.upto_last apply_mutation Suite.mutant_builds
    Suite.row_rel broke judge unknown_codes Roots.copy_tree Roots.drop_root Roots.is_abandoned
    is_gone Roots.is_number Roots.is_skipped Roots.reap Roots.remove root_name Roots.shadow_of
    Roots.split_last Roots.tail_of Session.directory Session.enter Session.given Session.real_root
    Session.root_or_real Session.with_shadow Shadow.is_staged_file Shadow.stage_one
    Shadow.staged_files
session_done = refl

court-Lacks : Lacks b'/' (codes "court")
unfolding codes
court-Lacks = (refl, (refl, (refl, (refl, (refl, tt)))))

other_pid : ◌≢◌ {A = ℕ} 41 50
other_pid e = omega arith

run_outside_example :
    (disk_of (outcome_of session) govern ≡ sources)
    × (find_root (root_name (codes "court") (codes "mutate") 50) (after_of session) ≡ none)
    × (find_root (root_name (codes "court") (codes "mutate") 41) (after_of session)
        ≡ find_root (root_name (codes "court") (codes "mutate") 41) roots)
unfolding ◌=text◌ codes
run_outside_example =
    run_outside at_home (some (codes "/home/gno")) one_lives tools (codes "/r") runner batch
      repository roots (rows_of (outcome_of session)) (disk_of (outcome_of session))
      (after_of session) govern (codes "court") (codes "mutate") 41 court-Lacks
      (unfold is_under starts_with codes in refl) (unfold is_gone in refl) other_pid session_done

abbrev failed : Suite
failed = record { passed = false; out = codes "TestOrder failed"; hung = []; built = true }

judge-is_caught_example : (is_caught (judge [] failed) ≡ true) ↔ (
    (unknown_codes failed.out ≡ [])
    × (failed.hung ≡ [])
    × (failed.passed ≡ false)
    × (broke failed.out ≡ false)
    × (failed.built ≡ true))
judge-is_caught_example = judge-is_caught [] failed

abbrev staged_disk : Disk
staged_disk p = if p =text staged then sources else []

abbrev disk_or : Option Disk → Disk
disk_or none = repository
disk_or (some d) = d

abbrev flipped : Disk
flipped = disk_or (apply_mutation (codes "/g") flip staged_disk)

flip_applied : apply_mutation (codes "/g") flip staged_disk ≡ some flipped
unfolding apply_mutation find_pkg row_pkg get_file ◌=text◌ codes join_path
flip_applied = refl

flip_found :
    get_file
      (codes "a.gno")
      (staged_disk (join_path (codes "/g") (codes "examples/gno.land/r/kourt/govern")))
    ≡ some (codes "if x > y")
unfolding get_file ◌=text◌ codes join_path
flip_found = refl

flip_known :
    find_pkg (row_pkg flip) pkg_table
    ≡ some (codes "realm/r/govern", codes "examples/gno.land/r/kourt/govern")
unfolding find_pkg row_pkg ◌=text◌ codes
flip_known = refl

flip_anchored : codes ">" ≢ []
unfolding codes
flip_anchored e = cc e

flip_once : count (codes ">") (codes "if x > y") ≡ 1
unfolding count codes Text.drop_prefix
flip_once = refl

apart : (s t : Text) → (s =text t) ≡ false → s ≢ t
apart s t h e = cc (h, e, =text_refl t)

flip_other : codes "a.gno" ≢ codes "b.txt"
unfolding codes ◌=text◌
flip_other = apart (codes "a.gno") (codes "b.txt") refl

apply_mutation_once_example :
    (pre : Text) × (post : Text) × (codes "if x > y" ≡ pre ++ codes ">" ++ post)
    × (get_file
          (codes "a.gno")
          (flipped (join_path (codes "/g") (codes "examples/gno.land/r/kourt/govern")))
        ≡ some (pre ++ codes "<=" ++ post))
    × (get_file
          (codes "b.txt")
          (flipped (join_path (codes "/g") (codes "examples/gno.land/r/kourt/govern")))
        ≡ get_file
            (codes "b.txt")
            (staged_disk (join_path (codes "/g") (codes "examples/gno.land/r/kourt/govern"))))
apply_mutation_once_example =
    apply_mutation_once (codes "/g") flip staged_disk flipped
      (codes "realm/r/govern", codes "examples/gno.land/r/kourt/govern") (codes "if x > y")
      (codes "b.txt") flip_known flip_found flip_anchored flip_other flip_once flip_applied
