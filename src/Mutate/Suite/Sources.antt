-- ===== src/Mutate/Suite/Sources.antt =====
-- The repository's sources are never written to: a cycle changes nothing outside the staged trees.
use cryptocourt.Base.{
  ◌≡◌, refl, sym, ◌∙◌, false, Option, none, some, List, [], ◌∷◌, map, arith, Option-cases,
  Bool-cases, inl, inr,
}
use mathlib.Core.Option.{some_inj}
use cryptocourt.Base.Text.{Text, ◌=text◌, replace}
use cryptocourt.Base.Disk.{Files, Disk, join_path, is_under, write_dir, get_file, put_file}
use cryptocourt.Shadow.Staging.{Outside, stage-Outside, unstage-Outside}
use cryptocourt.Mutate.Tables.{pkg_table, find_pkg}
use cryptocourt.Mutate.Suite.{
  Row, row_pkg, Toolchain, Suite, stage_pairs, absolute, apply_mutation, test_and_clear,
  lint_and_test, run_suite,
}

write_dir_outside :
    (d p : Text) (files : Files) (disk : Disk)
    → is_under d p ≡ false
    → write_dir d files disk p ≡ disk p
unfolding write_dir is_under
write_dir_outside d p files disk h = ground arith

module _ (repo root p : Text) where
  -- The directory of every package of a table is one of the staged ones.
  find_pkg-Outside :
      (k : Text) (dirs : Text × Text) (table : List (Text × (Text × Text)))
      → find_pkg k table ≡ some dirs
      → Outside root (absolute repo (map (λ (x : Text × (Text × Text)). x.1) table)) p
      → is_under (join_path root dirs.1) p ≡ false
  unfolding find_pkg
  find_pkg-Outside k dirs [] e h = cc
  find_pkg-Outside k dirs ((n, a) ∷ table) e (h, hs) = elim (Bool-cases (k =text n)) [
    | inl same ↦ rw (← some_inj.0 (rw same at e)) h
    | inr other ↦ find_pkg-Outside k dirs table (rw other at e) hs
  ]

module _ (root : Text) where
  apply_mutation-unknown :
      (m : Row) (disk : Disk)
      → find_pkg (row_pkg m) pkg_table ≡ none
      → apply_mutation root m disk ≡ none
  unfolding apply_mutation
  apply_mutation-unknown m disk e = rw (e, apply_mutation)

  pub apply_mutation-none :
      (m : Row) (disk : Disk) {dirs : Text × Text}
      → find_pkg (row_pkg m) pkg_table ≡ some dirs
      → get_file m.file (disk (join_path root dirs.1)) ≡ none
      → apply_mutation root m disk ≡ none
  unfolding apply_mutation
  apply_mutation-none m disk e f = rw (e, apply_mutation, f)

  pub apply_mutation-some :
      (m : Row) (disk : Disk) {dirs : Text × Text} {text : Text}
      → find_pkg (row_pkg m) pkg_table ≡ some dirs
      → get_file m.file (disk (join_path root dirs.1)) ≡ some text
      → apply_mutation root m disk
        ≡ some (
            write_dir
              (join_path root dirs.1)
              (put_file m.file (replace m.find m.substitute text) (disk (join_path root dirs.1)))
              disk)
  unfolding apply_mutation
  apply_mutation-some m disk e f = rw (e, apply_mutation, f)

  apply_mutation_inv :
      (m : Row) (disk d : Disk)
      → apply_mutation root m disk ≡ some d
      → (dirs : Text × Text) × (text : Text) × (find_pkg (row_pkg m) pkg_table ≡ some dirs)
        × (get_file m.file (disk (join_path root dirs.1)) ≡ some text)
        × (write_dir
              (join_path root dirs.1)
              (put_file m.file (replace m.find m.substitute text) (disk (join_path root dirs.1)))
              disk
            ≡ d)
  unfolding apply_mutation
  apply_mutation_inv m disk d h = elim (Option-cases (find_pkg (row_pkg m) pkg_table)) [
    | inl e ↦ cc (h, apply_mutation-unknown m disk e)
    | inr (dirs, e) ↦ elim (Option-cases (get_file m.file (disk (join_path root dirs.1)))) [
      | inl f ↦ cc (h, apply_mutation-none m disk e f)
      | inr (text, f) ↦ (dirs, text, e, f, some_inj.0 (sym (apply_mutation-some m disk e f) ∙ h))
    ]
  ]

module _ (repo root p : Text) where
  module _ (outside : Outside root (stage_pairs repo) p) where
    apply_mutation_outside :
        (m : Row) (disk d : Disk) → apply_mutation root m disk ≡ some d → d p ≡ disk p
    apply_mutation_outside m disk d h =
        let (dirs, text, e, f, same) = apply_mutation_inv root m disk d h in
        rw (← same) (
          write_dir_outside (join_path root dirs.1) p _ disk
            (find_pkg-Outside repo root p (row_pkg m) dirs pkg_table e outside))

    module _ (tools : Toolchain) where
      test_and_clear_outside :
          (names : List Text) (s : Suite) (disk : Disk)
          → (test_and_clear tools repo root names s disk).1 p ≡ disk p
      unfolding test_and_clear
      test_and_clear_outside names s disk = unstage-Outside root (stage_pairs repo) p disk outside

      lint_and_test_outside :
          (names : List Text) (m : Row) (disk : Disk) (o : Option Disk) (r : Suite × Disk)
          → apply_mutation root m disk ≡ o
          → lint_and_test tools repo root names m o ≡ some r
          → r.1 p ≡ disk p
      lint_and_test_outside names m disk none r e h = cc
      lint_and_test_outside names m disk (some d) r e h =
          rw (← some_inj.0 h) (test_and_clear_outside _ _ _ ∙ apply_mutation_outside m disk d e)

      -- One cycle leaves every path outside the staged trees as it was.
      pub run_suite_outside :
          (pkg : Option Text) (mut : Option Row) (disk : Disk) (r : Suite × Disk)
          → run_suite tools repo root pkg mut disk ≡ some r
          → r.1 p ≡ disk p
      unfolding run_suite
      run_suite_outside pkg none disk r h =
          rw (← some_inj.0 h)
            (test_and_clear_outside _ _ _ ∙ stage-Outside root (stage_pairs repo) p disk outside)
      run_suite_outside pkg (some m) disk r h =
          lint_and_test_outside _ m _ _ r refl h
          ∙ stage-Outside root (stage_pairs repo) p disk outside
