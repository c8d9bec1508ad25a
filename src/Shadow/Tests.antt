-- ===== src/Shadow/Tests.antt =====
-- A shadow root beside the root of a live process, 41, and that of one that is gone, 7.
use cryptocourt.Base.{
  ℕ, Bool, false, ◌≡◌, ◌≢◌, refl, Option, none, some, List, [], ◌∷◌, arith, if◌then◌else◌, ◌==◌,
}
use cryptocourt.Base.Text.{Text, codes, starts_with, drop_prefix, ◌=text◌}
use cryptocourt.Base.Decimal.{str_nat}
use cryptocourt.Base.Text.Lines.{Lacks}
use cryptocourt.Base.Disk.{join_path}
use cryptocourt.Base.Int.{ℤ, pos, negsuc}
use cryptocourt.Lock.{Signal, delivered, no_process}
use cryptocourt.Shadow.Roots.{
  Tree, empty, file, dir, Root, Roots, Checkout, copy_tree, is_gone, is_abandoned, reap, root_name,
  drop_root, build, remove, split_last, tail_of, is_number,
}
use cryptocourt.Shadow.Roots.Copy.{walk, crosses, walk-copy_tree}
use cryptocourt.Shadow.Roots.Owned.{find_root}
use cryptocourt.Shadow.Session
use cryptocourt.Shadow.Session.{
  Process, Action, build_root, remove_root, directory, given, real_root, root_or_real, owner, enter,
  with_shadow, main,
}
use cryptocourt.Shadow.Session.Cleaned.{main_remove, with_shadow_cleans}

abbrev one_lives : ℤ → Signal
one_lives (pos n) = if n == 41 then delivered else no_process
one_lives (negsuc n) = no_process

abbrev examples : Tree
examples =
    dir (codes "gno.land")
      (dir (codes "r") (dir (codes "kourt") (file (codes "a.gno") (codes "x") empty) empty) empty)
      (file (codes "b.gno") (codes "y") empty)

abbrev staged_path : List Text
staged_path = codes "gno.land" ∷ codes "r" ∷ codes "kourt" ∷ codes "a.gno" ∷ []

walk-copy_tree_example : walk staged_path (copy_tree (codes "gno") (codes "examples") examples) ≡ (
    if crosses (codes "gno") (codes "examples") staged_path
    then none
    else walk staged_path examples)
walk-copy_tree_example = walk-copy_tree (codes "gno") (codes "examples") staged_path examples

abbrev gno : Checkout
gno = record {
  path = codes "/home/gno";
  names = codes "examples" ∷ codes ".git" ∷ codes "gnovm" ∷ [];
  examples = examples;
}

abbrev old_root : Root
old_root = record { links = []; examples = empty }

abbrev roots : Roots
roots =
    (root_name (codes "court") (codes "mutate") 41, old_root)
    ∷ (root_name (codes "court") (codes "check-x") 7, old_root)
    ∷ []

abbrev mine : Text
mine = root_name (codes "court") (codes "mutate") 50

abbrev roots_of : Option (Text × Roots) → Roots
roots_of none = []
roots_of (some r) = r.1

abbrev after : Roots
after = roots_of (build one_lives (codes "court") (some gno) (codes "mutate") 50 roots)

built : build one_lives (codes "court") (some gno) (codes "mutate") 50 roots ≡ some (mine, after)
unfolding build
built = refl

other_pid : ◌≢◌ {A = ℕ} 41 50
other_pid e = omega arith

court-Lacks : Lacks b'/' (codes "court")
unfolding codes
court-Lacks = (refl, (refl, (refl, (refl, (refl, tt)))))

mutate-Lacks : Lacks b'/' (codes "mutate")
unfolding codes
mutate-Lacks = (refl, (refl, (refl, (refl, (refl, (refl, tt))))))

abbrev at_home : Text → Option Checkout
at_home path = some gno

abbrev gno_env : Option Text
gno_env = some (codes "/home/gno")

abbrev runner : Process
runner = record { who = codes "court"; base = codes "/tmp/roots"; pid = 50 }

abbrev shell : Process
shell = record { who = codes "court"; base = codes "/tmp/roots"; pid = 51 }

abbrev to_build : Action
to_build = build_root none (codes "mutate") none

abbrev printed_path : Text
printed_path = join_path (codes "/tmp/roots") mine

run_built :
    main at_home gno_env one_lives runner to_build roots
    ≡ record { code = 0; printed = some printed_path; roots = after }
unfolding main root_or_real real_root given directory owner Session.built join_path codes build
run_built = refl

main_remove_example :
    main at_home gno_env one_lives shell (remove_root (some printed_path)) after ≡ record {
      code = 0;
      printed = none;
      roots =
          drop_root
            (root_name (codes "court") (codes "mutate") (owner runner none))
            (reap one_lives roots).0;
    }
main_remove_example =
    main_remove at_home gno_env one_lives runner shell none (codes "mutate") printed_path none roots
      after court-Lacks mutate-Lacks refl run_built

abbrev does_nothing : Text → Roots → Bool × Roots
does_nothing path now = (false, now)

abbrev left : Roots
left = drop_root mine after

session_run :
    with_shadow at_home gno_env one_lives runner (codes "mutate") none does_nothing roots
    ≡ some (false, left)
unfolding with_shadow enter root_or_real real_root given directory owner join_path codes build
    remove split_last starts_with drop_prefix ◌=text◌ root_name str_nat drop_root is_abandoned reap
    tail_of is_number is_gone
session_run = refl

with_shadow_cleans_example :
    (find_root (root_name (codes "court") (codes "mutate") 50) left ≡ none)
    × (find_root (root_name (codes "court") (codes "mutate") 41) left
        ≡ find_root (root_name (codes "court") (codes "mutate") 41) roots)
with_shadow_cleans_example =
    with_shadow_cleans at_home gno_env one_lives runner (codes "mutate") none does_nothing roots
      left false (codes "court") (codes "mutate") 41 court-Lacks mutate-Lacks (λ path now. refl)
      (unfold is_gone in refl) other_pid session_run
