-- ===== src/Mutate/Suite/Splice.antt =====
-- What a mutation does to the staged copy of its file.
use cryptocourt.Base.{◌≡◌, ◌≢◌, ap, sym, ◌∙◌, some, [], ◌∷◌, ◌++◌, arith}
use cryptocourt.Base.Text.{Text, count}
use cryptocourt.Base.Text.Laws.{=text_refl, =text_sound}
use cryptocourt.Base.Text.Replace.{replace_once}
use cryptocourt.Base.Disk.{Files, Disk, join_path, write_dir, get_file, put_file}
use cryptocourt.Mutate.Tables.{pkg_table, find_pkg}
use cryptocourt.Mutate.Suite.{Row, row_pkg, apply_mutation}
use cryptocourt.Mutate.Suite.Sources.{apply_mutation-some}
use mathlib.Core.Option.{some_inj}

pub get_file-put_file :
    (n : Text) (content : Text) (files : Files)
    → get_file n (put_file n content files) ≡ some content
unfolding get_file put_file
get_file-put_file n content [] = rw =text_refl
get_file-put_file n content ((m, old) ∷ files) = ground (arith, get_file-put_file n content files)

get_file-put_file_ne :
    (n k : Text) (content : Text) (files : Files)
    → n ≢ k
    → get_file k (put_file n content files) ≡ get_file k files
unfolding get_file put_file
get_file-put_file_ne n k content [] ne = ground (arith, =text_sound k n)
get_file-put_file_ne n k content ((m, old) ∷ files) ne =
    ground (arith, get_file-put_file_ne n k content files ne, =text_sound k m, =text_sound n m)

pub write_dir_self : (d : Text) (files : Files) (disk : Disk) → write_dir d files disk d ≡ files
unfolding write_dir
write_dir_self d files disk = rw =text_refl

-- A row whose anchor occurs exactly once in the staged file changes that one place: the file is what
-- stands in front of it, the substitute and what stands behind it. A file `k` of the directory that
-- is another one is as it was.
pub apply_mutation_once :
    (root : Text) (m : Row) (disk d : Disk) (dirs : Text × Text) (text k : Text)
    → find_pkg (row_pkg m) pkg_table ≡ some dirs
    → get_file m.file (disk (join_path root dirs.1)) ≡ some text
    → m.find ≢ []
    → m.file ≢ k
    → count m.find text ≡ 1
    → apply_mutation root m disk ≡ some d
    → (pre : Text) × (post : Text) × (text ≡ pre ++ m.find ++ post)
      × (get_file m.file (d (join_path root dirs.1)) ≡ some (pre ++ m.substitute ++ post))
      × (get_file k (d (join_path root dirs.1)) ≡ get_file k (disk (join_path root dirs.1)))
apply_mutation_once root m disk d dirs text k known found anchored other once applied =
    let (pre, post, at, result) = replace_once m.find m.substitute text anchored once in
    let same = some_inj.0 (sym (apply_mutation-some root m disk known found) ∙ applied) in
    (
      pre,
      post,
      at,
      rw (← same, write_dir_self) (get_file-put_file m.file _ _ ∙ ap some result),
      rw (← same, write_dir_self) (get_file-put_file_ne m.file k _ _ other),
    )
