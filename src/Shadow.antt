-- ===== src/Shadow.antt =====
-- scripts/gnoroot.py: the shadow GNOROOT of a run. `stage` copies packages into it.
pub mod Staging
pub mod Roots
pub mod Session
pub mod Tests
use cryptocourt.Base.{Bool, ◌||◌, List, [], ◌∷◌, ◌++◌, keep}
use cryptocourt.Base.Text.{Text, codes, ◌=text◌, ends_with}
use cryptocourt.Base.Disk.{Files, Disk, join_path, remove_tree, write_dir}

-- The files that are staged: sources and the manifest.
unfoldable pub is_staged_file : Text → Bool
unfolding ends_with ◌=text◌
is_staged_file f = ends_with (codes ".gno") f || (f =text codes "gnomod.toml")

unfoldable pub staged_files : Files → Files
unfolding is_staged_file
staged_files = keep λ (f : Text × Text). is_staged_file f.0

-- One pair of a source directory and the path below the root: the destination is emptied and made
-- anew, and the files are copied.
unfoldable pub stage_one : Text → Text → Text → Disk → Disk
unfolding remove_tree write_dir staged_files join_path
stage_one root src rel disk =
    let dst = join_path root rel in
    let cleared = remove_tree dst disk in write_dir dst (staged_files (cleared src)) cleared

unfoldable pub stage : Text → List (Text × Text) → Disk → Disk
unfolding stage_one
stage root [] disk = disk
stage root ((src, rel) ∷ pairs) disk = stage root pairs (stage_one root src rel disk)

-- The directories of the pairs below the root are removed again.
unfoldable pub unstage : Text → List (Text × Text) → Disk → Disk
unfolding remove_tree join_path
unstage root [] disk = disk
unstage root ((src, rel) ∷ pairs) disk = unstage root pairs (remove_tree (join_path root rel) disk)
