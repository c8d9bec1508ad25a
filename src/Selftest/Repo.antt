-- ===== src/Selftest/Repo.antt =====
-- scripts/selftest-checks.py: the files of the repository, as the arms change them.
use cryptocourt.Base.{Option, none, some, [], ◌∷◌, ◌++◌, if◌then◌else◌}
use cryptocourt.Base.Text.{Text, codes, ◌=text◌, starts_with, ends_with}

-- The content of each file, by its absolute path.
abbrev pub Repo : Type 0
Repo = Text → Option Text

unfoldable pub write : Text → Text → Repo → Repo
unfolding ◌=text◌
write path content repo = λ p. if p =text path then some content else repo p

unfoldable pub unlink : Text → Repo → Repo
unfolding ◌=text◌
unlink path repo = λ p. if p =text path then none else repo p

-- `shutil.move` of a file.
unfoldable pub move : (source target : Text) → Repo → Repo
unfolding write unlink
move source target repo = elim (repo source) [
  | none ↦ repo
  | some content ↦ unlink source (write target content repo)
]

-- `os.path.join(a, b)`.
unfoldable pub path_join : Text → Text → Text
unfolding starts_with ends_with
path_join a b =
    if starts_with (codes "/") b then b else if ends_with (codes "/") a then a ++ b else joined a b
  where
    joined : Text → Text → Text
    joined [] b = b
    joined (c ∷ a) b = (c ∷ a) ++ (codes "/" ++ b)

-- The path that a guard's own directory, the repository's root, gives a relative one.
unfoldable pub full_path : (root path : Text) → Text
unfolding path_join
full_path root path = path_join root path

unfoldable pub backup_of : Text → Text
backup_of path = path ++ codes ".selftest-backup"
