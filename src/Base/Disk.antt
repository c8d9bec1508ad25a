-- ===== src/Base/Disk.antt =====
-- A disk as the scripts use it: a directory's path gives its files, each with its name and content.
use cryptocourt.Base.Tests.{if◌then◌else◌}
use mathlib.Core.Bool.{Bool, ◌||◌}
use mathlib.Core.Option.{Option, none, some}
use mathlib.Core.List.{List, [], ◌∷◌, ◌++◌}
use cryptocourt.Base.Text.{Text, codes, ◌=text◌, starts_with}

abbrev pub Files : Type 0
Files = List (Text × Text)

abbrev pub Disk : Type 0
Disk = Text → Files

-- `os.path.join(a, b)`, for a relative `b`.
unfoldable pub join_path : Text → Text → Text
join_path a b = a ++ (codes "/" ++ b)

-- Whether a path is the directory `d` or below it.
unfoldable pub is_under : Text → Text → Bool
is_under d p = (p =text d) || starts_with (d ++ codes "/") p

-- `shutil.rmtree(d, ignore_errors=True)`.
unfoldable pub remove_tree : Text → Disk → Disk
unfolding is_under
remove_tree d disk p = if is_under d p then [] else disk p

unfoldable pub write_dir : Text → Files → Disk → Disk
write_dir d files disk p = if p =text d then files else disk p

unfoldable pub get_file : Text → Files → Option Text
get_file n [] = none
get_file n ((m, content) ∷ files) = if n =text m then some content else get_file n files

unfoldable pub put_file : Text → Text → Files → Files
put_file n content [] = (n, content) ∷ []
put_file n content ((m, old) ∷ files) =
    if n =text m then (m, content) ∷ files else (m, old) ∷ put_file n content files
