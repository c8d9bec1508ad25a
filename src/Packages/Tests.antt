-- ===== src/Packages/Tests.antt =====
-- A realm that imports one package; its test imports another, which is not staged.
use cryptocourt.Base.{
  ◌+◌, ◌≡◌, ◌<◌, refl, Bool, true, ◌||◌, some, List, [], ◌∷◌, All, length, ltb→lt, if◌then◌else◌,
}
use mathlib.Core.List.{reverse, flat_map}
use cryptocourt.Base.Text
use cryptocourt.Mutate.Output
use cryptocourt.Packages
use cryptocourt.Packages.Imports
use cryptocourt.Base.Text.{Text, codes, ◌=text◌, text_in}
use cryptocourt.Base.Disk.{Disk, join_path, is_under, put_file, write_dir, remove_tree}
use cryptocourt.Base.Closure.{pending}
use cryptocourt.Packages.{Progress, packages, genesis, found_dir, fresh, close}
use cryptocourt.Packages.Table.{seen_marks, needs, needs_table, Covers}
use cryptocourt.Packages.Reached.{IsClosure, close-IsClosure}
use cryptocourt.Packages.Decide.{covers, covers-Covers}

abbrev kourt : Text
kourt = codes "gno.land/r/kourt/kourtv2"

abbrev curve : Text
curve = codes "gno.land/p/kourt/curve/v0"

abbrev sources : Disk
sources p =
    if p =text codes "/r/realm/r/kourtv2"
    then (codes "a.gno", codes "import (\n\t\"gno.land/p/kourt/curve/v0\"\n)\n")
      ∷ (codes "a_test.gno", codes "import \"gno.land/p/nt/uassert/v0\"\n")
      ∷ []
    else if p =text codes "/r/realm/p/curve"
    then (codes "c.gno", codes "package curve\n") ∷ []
    else []

abbrev is_dir : Text → Bool
is_dir p = (p =text codes "/r/realm/r/kourtv2") || (p =text codes "/r/realm/p/curve")

abbrev modules : List Text
modules = kourt ∷ curve ∷ []

modules_covered : covers (codes "/r") (codes "/g") (codes "/s") is_dir sources modules ≡ true
unfolding needs found_dir Packages.source_dir Packages.staged_dir Packages.fourth
    Packages.imports_of Packages.is_gno Packages.is_prod Packages.prod_files Imports.imports_in
    Imports.quoted Imports.blocks Imports.block_at Imports.single_imports Imports.import_at
    Imports.path_at Imports.is_path_char Text.split Text.lstrip Text.is_space Text.starts_with
    Text.ends_with Text.drop_prefix Text.replace codes ◌=text◌ text_in join_path is_under put_file
    Output.sorted_set Output.insert_text Output.text_le Output.span Output.is_word flat_map
modules_covered = refl

modules_Covers : Covers (codes "/r") (codes "/g") (codes "/s") is_dir sources modules
modules_Covers =
    covers-Covers (codes "/r") (codes "/g") (codes "/s") is_dir sources modules modules_covered

roots_within : All (λ (m : Text). text_in m modules ≡ true) (kourt ∷ [])
unfolding text_in ◌=text◌ codes
roots_within = (refl, tt)

rounds_enough :
    length (reverse (kourt ∷ []))
      + pending
          (seen_marks (codes "/r") (codes "/g") (codes "/s") is_dir)
          (needs_table (codes "/r") (codes "/g") (codes "/s") is_dir sources modules)
          (fresh (codes "/r") (codes "/g") (codes "/s") is_dir sources)
    < 9
unfolding seen_marks needs found_dir Packages.source_dir Packages.staged_dir Packages.fourth
    Packages.imports_of Packages.is_gno Packages.is_prod Packages.prod_files Imports.imports_in
    Imports.quoted Imports.blocks Imports.block_at Imports.single_imports Imports.import_at
    Imports.path_at Imports.is_path_char Text.split Text.lstrip Text.is_space Text.starts_with
    Text.ends_with Text.drop_prefix Text.replace codes ◌=text◌ text_in join_path is_under put_file
    Output.sorted_set Output.insert_text Output.text_le Output.span Output.is_word flat_map fresh
    Packages.is_seen
rounds_enough = ltb→lt 2 9 refl

close-IsClosure_example :
    (s : Progress) × (close
        (codes "/r")
        (codes "/g")
        (codes "/s")
        is_dir
        9
        (fresh (codes "/r") (codes "/g") (codes "/s") is_dir sources)
        (reverse (kourt ∷ []))
      ≡ some s)
    × IsClosure
        (codes "/r")
        (codes "/g")
        (codes "/s")
        is_dir
        sources
        modules
        modules_Covers
        (reverse (kourt ∷ []))
        s
close-IsClosure_example =
    close-IsClosure (codes "/r") (codes "/g") (codes "/s") is_dir sources modules modules_Covers 9
      (kourt ∷ []) roots_within rounds_enough

genesis-kourt :
    genesis (codes "/r") (codes "/g") (codes "/s") is_dir 9 (kourt ∷ []) sources
    ≡ some (packages (curve ∷ kourt ∷ []))
unfolding genesis close Packages.settle Packages.pushed Packages.stage Packages.conclude found_dir
    Packages.source_dir Packages.staged_dir Packages.fourth Packages.imports_of Packages.is_gno
    Packages.is_prod Packages.prod_files Imports.imports_in Imports.quoted Imports.blocks
    Imports.block_at Imports.single_imports Imports.import_at Imports.path_at Imports.is_path_char
    Text.split Text.lstrip Text.is_space Text.starts_with Text.ends_with Text.drop_prefix
    Text.replace codes ◌=text◌ text_in join_path is_under put_file Output.sorted_set
    Output.insert_text Output.text_le Output.span Output.is_word flat_map fresh Packages.is_seen
    write_dir remove_tree
genesis-kourt = refl
