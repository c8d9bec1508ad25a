-- ===== src/Packages.antt =====
-- scripts/genesis-pkgs.py: the packages that a genesis needs, staged without their tests.
pub mod Imports
pub mod Sets
pub mod Table
pub mod Lockstep
pub mod Reached
pub mod Complete
pub mod Decide
pub mod Tests
use mathlib.Core.List.{flat_map, reverse}
use cryptocourt.Base.{
  ℕ, zero, suc, ◌+◌, Bool, true, false, not, ◌&&◌, ◌||◌, Option, none, some, List, [], ◌∷◌, ◌++◌,
  map, keep, length, ◌==◌, if◌then◌else◌,
}
use cryptocourt.Base.Text.{
  Text, codes, ◌=text◌, text_in, starts_with, ends_with, split, join, replace,
}
use cryptocourt.Base.Disk.{Files, Disk, join_path, write_dir, get_file, put_file, remove_tree}
use cryptocourt.Mutate.Output.{sorted_set}
use cryptocourt.Mutate.Verdict.{is_nil}
use cryptocourt.Packages.Imports.{imports_in}

-- `mod.split("/")[3]`.
unfoldable pub fourth : List Text → Text
fourth (a ∷ b ∷ c ∷ d ∷ rest) = d
fourth _ = []

-- `f.endswith(".gno")` as `glob` has it, which leaves hidden files out.
unfoldable pub is_gno : Text → Bool
unfolding starts_with ends_with
is_gno f = ends_with (codes ".gno") f && not (starts_with (codes ".") f)

unfoldable pub is_prod : Text → Bool
unfolding is_gno ◌=text◌
is_prod f =
    (is_gno f && not (ends_with (codes "_test.gno") f || ends_with (codes "_filetest.gno") f))
    || (f =text codes "gnomod.toml")

-- The files that are copied.
unfoldable pub prod_files : Files → Files
unfolding is_prod
prod_files = keep λ (f : Text × Text). is_prod f.0

abbrev pub put_all : Files → Files → Files
put_all [] files = files
put_all ((n, content) ∷ copied) files = put_all copied (put_file n content files)

-- `imports_of` of the files of a directory, as the set in order.
unfoldable pub imports_of : Files → List Text
unfolding imports_in is_gno sorted_set
imports_of files =
    sorted_set (flat_map (λ (f : Text × Text). if is_gno f.0 then imports_in f.1 else []) files)

pub record Progress : Type 0 where
  pub finished : List Text
  pub missing : List Text
  pub disk : Disk

unfoldable pub is_seen : Progress → Text → Bool
unfolding text_in
is_seen s m = text_in m s.finished || text_in m s.missing

module _ (repo gnoroot staging : Text) (is_dir : Text → Bool) where
  -- `None` is a module that the tree does not carry.
  unfoldable pub source_dir : Text → Option Text
  unfolding starts_with split fourth join_path
  source_dir m =
      if starts_with (codes "gno.land/p/kourt/") m
      then some (join_path (join_path repo (codes "realm/p")) (fourth (split b'/' m)))
      else if starts_with (codes "gno.land/r/kourt/") m
      then some (join_path (join_path repo (codes "realm/r")) (fourth (split b'/' m)))
      else if is_dir (join_path (join_path gnoroot (codes "examples")) m)
      then some (join_path (join_path gnoroot (codes "examples")) m)
      else none

  -- The source that `main` stages: `source_dir`, if it is a directory.
  unfoldable pub found_dir : Text → Option Text
  unfolding source_dir
  found_dir m = elim (source_dir m) [ none ↦ none | some d ↦ if is_dir d then some d else none ]

  -- `os.path.join(dst_root, mod.replace("/", "_"))`.
  unfoldable pub staged_dir : Text → Text
  unfolding join_path replace
  staged_dir m = join_path staging (replace (codes "/") (codes "_") m)

  -- `stage`: the directory keeps what it had, and the files are copied into it.
  unfoldable pub stage : Text → Text → Disk → Disk
  unfolding prod_files write_dir staged_dir
  stage m src disk =
      write_dir (staged_dir m) (put_all (prod_files (disk src)) (disk (staged_dir m))) disk

  abbrev pub settle_found : Text → Progress → Option Text → Progress
  settle_found m s none = record s { missing = m ∷ s.missing }
  settle_found m s (some src) = record s { finished = m ∷ s.finished; disk = stage m src s.disk }

  -- The module is missing, or it is done and staged.
  unfoldable pub settle : Text → Progress → Progress
  unfolding stage
  settle m s = settle_found m s (found_dir m)

  -- What the queue is extended by.
  unfoldable pub pushed : Text → Progress → List Text
  unfolding imports_of staged_dir
  pushed m s = elim (found_dir m) [ none ↦ [] | some src ↦ imports_of (s.disk (staged_dir m)) ]

  -- The loop. The end of the queue is its head here; `none` where the fuel has run out.
  unfoldable pub close : ℕ → Progress → List Text → Option Progress
  unfolding is_seen settle pushed
  close zero s queue = none
  close (suc fuel) s [] = some s
  close (suc fuel) s (m ∷ queue) = elim (is_seen s m) [
    | true ↦ close fuel s queue
    | false ↦ let s' = settle m s in close fuel s' (reverse (pushed m s') ++ queue)
  ]

  -- The beginning: the staging directory is emptied.
  unfoldable pub fresh : Disk → Progress
  unfolding remove_tree
  fresh disk = record { finished = []; missing = []; disk = remove_tree staging disk }

-- How `main` ends: with the packages, or with the imports that nothing resolves.
pub data Genesis : Type 0 where
  unresolved : List Text → Genesis
  packages : List Text → Genesis

unfoldable pub conclude : List Text → List Text → Genesis
unfolding sorted_set
conclude finished [] = packages (sorted_set finished)
conclude finished (m ∷ missing) = unresolved (sorted_set (m ∷ missing))

abbrev end_of : Option Progress → Option Genesis
end_of none = none
end_of (some s) = some (conclude s.finished s.missing)

-- `main` behind the parser; the printed sizes are not modelled.
unfoldable pub genesis :
    (repo gnoroot staging : Text) (is_dir : Text → Bool) → ℕ → List Text → Disk → Option Genesis
unfolding close fresh conclude
genesis repo gnoroot staging is_dir fuel roots disk = end_of (
    close repo gnoroot staging is_dir fuel (fresh repo gnoroot staging is_dir disk) (reverse roots))
