-- ===== src/Corpus/Fixtures.antt =====
-- scripts/check-mutation-anchors.py: `selftest`, the fixtures that the guard runs on itself. A wanted text stands for the
-- problem whose message holds it.
use cryptocourt.Base.{
  ℕ, ◌≡◌, refl, Bool, true, false, not, Option, none, some, List, [], ◌∷◌, ◌++◌, any, ◌==◌,
  if◌then◌else◌,
}
use cryptocourt.Base.Text
use cryptocourt.Base.Closure
use cryptocourt.Base.Groups
use cryptocourt.Mutate.Output
use cryptocourt.Corpus.Makefile
use cryptocourt.Corpus.Rows
use cryptocourt.Base.Text.{Text, codes, ◌=text◌}
use cryptocourt.Mutate.Verdict.{is_nil}
use cryptocourt.Corpus.Makefile.{Routine, runs, routinely_run}
use cryptocourt.Corpus.Rows.{
  RawRow, Entry, object, other, Resolved, no_package, no_file, found, Problem, malformed,
  unlabelled, line_numbered, stale_elsewhere, unknown_pkg, missing_file, no_op, bad_anchor, Placed,
  Clash, duplicate_triple, duplicate_label, row_verdicts, cross_verdicts,
}

-- `fixture_resolve`, with the two files of `FIXTURE_TREE`.
abbrev fixture_resolve : Text → Text → Resolved
fixture_resolve pkg f =
    if not (pkg =text codes "kourtv2")
    then no_package
    else if f =text codes "a.gno"
    then found (codes "\tif x < 1 {\n\t\tpanic(\"no\")\n\t}\n\tif x < 1 {\n")
    else if f =text codes "b.gno"
    then found (codes "\tonce := 1\n")
    else no_file

-- `R()`.
abbrev fixture_row : RawRow
fixture_row = record {
  pkg = some (codes "kourtv2");
  file = some (codes "b.gno");
  label = some (codes "L");
  find = some (codes "once");
  substitute = some (codes "x");
  elsewhere = none;
}

abbrev labelled : RawRow → Text → Entry
labelled row label = object (record row { label = some label })

-- Whether a problem is the one that a fixture is there for.
abbrev same_problem : Problem → Problem → Bool
same_problem malformed malformed = true
same_problem unlabelled unlabelled = true
same_problem line_numbered line_numbered = true
same_problem stale_elsewhere stale_elsewhere = true
same_problem unknown_pkg unknown_pkg = true
same_problem missing_file missing_file = true
same_problem no_op no_op = true
same_problem (bad_anchor m) (bad_anchor n) = m == n
same_problem _ _ = false

-- `ROW_FIXTURES`.
abbrev row_fixtures : List (List Entry × Option Problem)
row_fixtures =
    (object (record fixture_row { pkg = some (codes "nope") }) ∷ [], some unknown_pkg)
    ∷ (object (record fixture_row { file = some (codes "gone.gno") }) ∷ [], some missing_file)
    ∷ (object (record fixture_row { substitute = some (codes "once") }) ∷ [], some no_op)
    ∷ (object (record fixture_row { find = some (codes "absent") }) ∷ [], some (bad_anchor 0))
    ∷ (
      object (record fixture_row {
        file = some (codes "a.gno");
        find = some (codes "\tif x < 1 {\n");
      })
          ∷ [],
      some (bad_anchor 2),
    )
    ∷ (
      object (record fixture_row { elsewhere = some (codes "no/such/file.txtar") }) ∷ [],
      some stale_elsewhere,
    )
    ∷ (object (record fixture_row { label = none }) ∷ [], some unlabelled)
    ∷ (object (record fixture_row { file = none; substitute = none }) ∷ [], some malformed)
    ∷ (other ∷ [], some malformed)
    ∷ (object (record fixture_row { file = none }) ∷ [], some malformed)
    ∷ (labelled fixture_row (codes "quality/OpenFlag:82: settled") ∷ [], some line_numbered)
    ∷ (labelled fixture_row (codes "v0.52: CounterFlag does not latch") ∷ [], none)
    ∷ (labelled fixture_row (codes "P-CONST checkpoint MaxKey 128 -> 1280") ∷ [], none)
    ∷ (object fixture_row ∷ [], none)
    ∷ []

abbrev in_corpus : Text → Entry → Placed
in_corpus rel e = (rel, e)

abbrev is_triple : Clash → Bool
is_triple (duplicate_triple g) = true
is_triple (duplicate_label g) = false

abbrev is_label : Clash → Bool
is_label (duplicate_triple g) = false
is_label (duplicate_label g) = true

-- `CROSS_FIXTURES`.
abbrev cross_fixtures : List (List Placed × Option (Clash → Bool))
cross_fixtures =
    (
      in_corpus (codes "c.json") (labelled fixture_row (codes "A"))
          ∷ in_corpus (codes "c.json") (labelled fixture_row (codes "B"))
          ∷ [],
      some is_triple,
    )
    ∷ (
      in_corpus (codes "main.json") (labelled fixture_row (codes "A"))
          ∷ in_corpus (codes "gaps.json") (labelled fixture_row (codes "B"))
          ∷ [],
      some is_triple,
    )
    ∷ (
      in_corpus (codes "c.json") (labelled fixture_row (codes "A"))
          ∷ in_corpus (codes "c.json")
              (labelled (record fixture_row { find = some (codes "other") }) (codes "A"))
          ∷ [],
      some is_label,
    )
    ∷ (
      in_corpus (codes "c.json") (labelled fixture_row (codes "A"))
          ∷ in_corpus (codes "c.json")
              (labelled (record fixture_row { pkg = some (codes "govern") }) (codes "B"))
          ∷ [],
      none,
    )
    ∷ (
      in_corpus (codes "c.json") (labelled fixture_row (codes "A"))
          ∷ in_corpus (codes "c.json")
              (labelled (record fixture_row { substitute = some (codes "y") }) (codes "B"))
          ∷ [],
      none,
    )
    ∷ (in_corpus (codes "c.json") (object fixture_row) ∷ [], none)
    ∷ []

abbrev in_check : Text
in_check = codes "check: realm-test txtar-test\n\ntxtar-test:\n\tgo test -tags txtar ./gnoland/\n"

abbrev no_runner : Text
no_runner = codes "check: realm-test\n\nrealm-test:\n\tgno test .\n"

abbrev unreached : Text
unreached =
    codes
      "check: realm-test\n\nrealm-test:\n\tgno test .\n\ntxtar-test:\n\tgo test -tags txtar ./gnoland/\n"

abbrev mentioned : Text
mentioned =
    codes
      "check: scenarios-check\n\nscenarios-check:\n\tcmp -s gnoland/testdata/x.txtar $$tmp/x.txtar\n"

abbrev py_in : Text
py_in = codes "check: realm-test\n\nrealm-test:\n\tpython3 scripts/g.py || exit 1\n"

-- `RUN_FIXTURES`.
abbrev run_fixtures : List (Text × (Text × Bool))
run_fixtures =
    (codes "gnoland/testdata/a.txtar", (in_check, true))
    ∷ (codes "gnoland/testdata/a.txtar", (no_runner, false))
    ∷ (codes "gnoland/testdata/a.txtar", (unreached, false))
    ∷ (codes "gnoland/testdata/a.txtar", (mentioned, false))
    ∷ (codes "scripts/g.py", (py_in, true))
    ∷ (codes "scripts/other.py", (py_in, false))
    ∷ (codes "docs/NOTES.md", (in_check, false))
    ∷ []

-- `_check`: a fixture without a wanted problem has none, and one with a wanted problem has it.
abbrev check_problems : {A : Type 0} → List A → Option (A → Bool) → List ℕ
check_problems got none = if is_nil got then [] else 0 ∷ []
check_problems got (some wanted) = if any wanted got then [] else 0 ∷ []

abbrev wanted_problem : Option Problem → Option (Problem → Bool)
wanted_problem none = none
wanted_problem (some p) = some (same_problem p)

abbrev does_run : Routine → Bool
does_run runs = true
does_run _ = false

module _ (exists : Text → Bool) (routine : Text → Routine) where
  abbrev check_rows : List (List Entry × Option Problem) → List ℕ
  check_rows [] = []
  check_rows ((rows, want) ∷ fixtures) =
      check_problems (row_verdicts exists routine fixture_resolve rows) (wanted_problem want)
      ++ check_rows fixtures

abbrev check_pairs : List (List Placed × Option (Clash → Bool)) → List ℕ
check_pairs [] = []
check_pairs ((pairs, want) ∷ fixtures) =
    check_problems (cross_verdicts pairs) want ++ check_pairs fixtures

abbrev check_runs : List (Text × (Text × Bool)) → List ℕ
check_runs [] = []
check_runs ((path, (src, want)) ∷ fixtures) =
    (if does_run (routinely_run path (some src))
      then (if want then [] else 0 ∷ [])
      else (if want then 0 ∷ [] else []))
    ++ check_runs fixtures

-- The fixtures that do not hold, one entry for each.
abbrev pub selftest : (exists : Text → Bool) → (Text → Routine) → List ℕ
selftest exists routine =
    check_rows exists routine row_fixtures
    ++ (check_pairs cross_fixtures ++ check_runs run_fixtures)

abbrev nothing_there : Text → Bool
nothing_there p = false

abbrev always : Text → Routine
always p = runs

-- The fixtures hold in a tree without the file that one of them cites.
selftest_holds : selftest nothing_there always ≡ []
unfolding row_verdicts cross_verdicts routinely_run codes ◌=text◌ Rows.row_problems
    Rows.label_problems Rows.is_line_numbered Rows.raw_pkg Rows.anchor_problems
    Rows.elsewhere_problems Rows.required Rows.mutations Rows.labels Rows.same_key Groups.repeated
    Groups.collect Groups.add Output.span Output.is_word Output.sorted_set Output.insert_text
    Output.text_le Makefile.parse_makefile Makefile.reached_targets Makefile.reached_recipes
    Makefile.runs_txtar Makefile.runs_python Makefile.spaced_path Makefile.deps_of
    Makefile.deps_onto Makefile.recipe_of Makefile.targets Makefile.target_line Makefile.split_colon
    Makefile.is_target_name Makefile.is_target_rest Makefile.ended_lines Makefile.recipe_lines
    Closure.walk Closure.successors Text.count Text.drop_prefix Text.starts_with Text.ends_with
    Text.contains Text.split Text.words Text.is_space Text.join Text.text_in
selftest_holds = refl
