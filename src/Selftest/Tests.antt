-- ===== src/Selftest/Tests.antt =====
-- One arm on one file: a guard that objects to "evil", and the arm that plants it.
use cryptocourt.Base.{
  ◌≡◌, refl, true, not, Option, none, some, List, [], ◌∷◌, ◌++◌, any, All, if◌then◌else◌,
}
use cryptocourt.Base.Text.{
  Text, codes, ◌=text◌, text_in, contains, count, replace, starts_with, ends_with, drop_prefix,
}
use cryptocourt.Shadow.Roots.{split_last}
use cryptocourt.Selftest.Repo.{Repo, write, unlink, move, path_join, full_path, backup_of}
use cryptocourt.Selftest.Arms.{
  Run, Control, planted, control, complaint, command, stdin_of, scripts_of, basename, is_fired,
}
use cryptocourt.Selftest.Session.{Arm, on_file, checked, Session, noted, run_arm, run_arms}
use cryptocourt.Selftest.Exprs.{literal, name, Consts, ev, build, assign, put_const, find_const}
use cryptocourt.Selftest.Anchors
use cryptocourt.Selftest.Anchors.{Call, check_anchors, faults, call_fault, plant_fault}
use cryptocourt.Selftest.Vacuity.{
  want_of, command_of, ev_all, says_clean, audit_call, vacuity_audit,
}
use cryptocourt.Selftest.Run.{Source, runners, owing, coverage, objections, all_failures, selftest}
use cryptocourt.Selftest.Restored.{IsClear}
use cryptocourt.Selftest.Sensitive.{Fires}
use cryptocourt.Selftest.Exercised.{exercises}
use cryptocourt.Selftest.Clean.{Silent, selftest-Fires}
use cryptocourt.Selftest.Planted.{IsSite, check_anchors-control}

abbrev root : Text
root = codes "/r"

abbrev repo : Repo
repo p = if p =text codes "/r/a" then some (codes "so good") else none

abbrev content_or_empty : Option Text → Text
content_or_empty none = []
content_or_empty (some content) = content

abbrev guard : Run
guard argv stdin cwd files =
    let evil = contains (codes "evil") (content_or_empty (files (codes "/r/a"))) in
    record { said = if evil then codes "BAD" else codes "fine"; passed = not evil }

abbrev no_rows : Text → Text → Option Text
no_rows rows corpus = none

abbrev arm : Control
arm = record {
  label = codes "evil in a";
  path = codes "a";
  find = codes "good";
  substitute = codes "evil";
  want = codes "BAD";
  argv = some (codes "python3" ∷ codes "scripts/check-evil.py" ∷ []);
  stdin = none;
  cwd = none;
}

abbrev arms : List Arm
arms =
    on_file arm
    ∷ checked (codes "mutate.py") (codes "m") true
    ∷ checked (codes "gnoroot.py") (codes "g") true
    ∷ checked (codes "mutate-parallel.py") (codes "p") true
    ∷ []

abbrev start : Session
start = record { failures = []; exercised = []; repo = repo }

abbrev ended : Session
ended = record {
  failures = [];
  exercised =
      codes "check-evil.py"
      ∷ codes "mutate.py"
      ∷ codes "gnoroot.py"
      ∷ codes "mutate-parallel.py"
      ∷ [];
  repo = (control guard root arm repo).1;
}

arms_run : run_arms guard root no_rows arms start ≡ some ended
unfolding run_arms run_arm control full_path path_join starts_with ends_with drop_prefix codes
    ◌=text◌ count planted replace write backup_of complaint noted is_fired command scripts_of
    basename split_last stdin_of
arms_run = refl

arms-IsClear : All (IsClear root repo) arms
unfolding full_path path_join starts_with ends_with drop_prefix codes ◌=text◌ backup_of
arms-IsClear = (refl, (tt, (tt, (tt, tt))))

abbrev site : Call
site = record {
  line = 7;
  args =
      literal (codes "evil in a")
      ∷ name (codes "TARGET")
      ∷ literal (codes "good")
      ∷ literal (codes "evil")
      ∷ literal (codes "BAD")
      ∷ [];
  argv = Anchors.listed (literal (codes "python3") ∷ literal (codes "scripts/check-evil.py") ∷ []);
}

abbrev module_text : Source
module_text = record { body = (codes "TARGET", literal (codes "a")) ∷ []; calls = site ∷ [] }

abbrev committed : List Text
committed = codes "check-evil.py" ∷ []

run_is_clean : selftest guard root no_rows committed (some committed) module_text arms repo ≡ 0
unfolding selftest all_failures run_arms run_arm control full_path path_join starts_with ends_with
    drop_prefix codes ◌=text◌ count planted replace write unlink move backup_of complaint noted
    is_fired command scripts_of basename split_last stdin_of coverage owing runners text_in
    objections vacuity_audit audit_call want_of command_of ev_all says_clean ev find_const build
    assign put_const contains
run_is_clean = refl

selftest-Fires_example :
    All (Fires guard root no_rows repo) arms
    × All
        (Silent guard root (build module_text.body ((codes "REPO", root) ∷ [])) repo)
        module_text.calls
    × All (λ g. any (exercises g) arms ≡ true) (owing committed (some committed))
selftest-Fires_example =
    selftest-Fires guard root no_rows committed (some committed) module_text arms repo arms-IsClear
      run_is_clean

abbrev consts : Consts
consts = (codes "TARGET", codes "a") ∷ []

anchors_hold : check_anchors root consts repo ([] ++ site ∷ []) ≡ 0
unfolding check_anchors faults call_fault plant_fault full_path path_join starts_with ends_with
    drop_prefix codes ◌=text◌ count ev find_const
anchors_hold = refl

arm-IsSite : IsSite consts arm site
unfolding ev find_const codes ◌=text◌
arm-IsSite = (
  literal (codes "evil in a"),
  name (codes "TARGET"),
  literal (codes "good"),
  literal (codes "evil") ∷ literal (codes "BAD") ∷ [],
  refl,
  refl,
  refl,
)

check_anchors-control_example :
    (src : Text) × ((control guard root arm ended.repo).0
      ≡ complaint arm.want (
          guard
            (command arm.argv)
            (stdin_of arm.stdin)
            arm.cwd
            (planted (full_path root arm.path) arm.find arm.substitute src repo)))
check_anchors-control_example =
    check_anchors-control guard root no_rows consts repo [] [] site arm arms ended anchors_hold
      arm-IsSite arms-IsClear arms_run
