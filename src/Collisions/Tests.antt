-- ===== src/Collisions/Tests.antt =====
-- A corpus of two rows, whose mutants are different.
use cryptocourt.Base.{
  ◌≡◌, ◌≢◌, refl, Bool, true, false, none, some, List, [], ◌∷◌, All, if◌then◌else◌,
}
use cryptocourt.Base.Text
use cryptocourt.Base.Groups
use cryptocourt.Mutate.Suite
use cryptocourt.Mutate.Output
use cryptocourt.Collisions
use cryptocourt.Collisions.Unused
use cryptocourt.Base.Text.{Text, codes, ◌=text◌, count, text_in}
use cryptocourt.Base.Text.Replace.First.{replace_first, index}
use cryptocourt.Base.Disk.{Disk, Files, get_file, join_path, is_under}
use cryptocourt.Base.Groups.{are_distinct}
use cryptocourt.Shadow.{stage, is_staged_file}
use cryptocourt.Mutate.Tables.{pkg_table, find_pkg}
use cryptocourt.Mutate.Suite.{stage_pairs, apply_mutation}
use cryptocourt.Corpus.Rows.{RawRow, Triple, required}
use cryptocourt.Corpus.Batch.{row_of}
use cryptocourt.Corpus.Batch.Promise.{Unstaged}
use cryptocourt.Collisions.{Mutant, mutant, CorpusRow, classify, mutants, check_collisions}
use cryptocourt.Collisions.Distinct.{IsUsable, same_mutant, check_collisions-distinct}
use cryptocourt.Collisions.Staged.{classify-apply_mutation}
use cryptocourt.Collisions.Unused.{uses, is_identifier}
use cryptocourt.Collisions.Unused.Words.{occurrences, word_list, uses-occurrences}

abbrev repo : Text
repo = codes "/r"

abbrev root : Text
root = codes "/g"

abbrev sources : Files
sources = (codes "a.gno", codes "\nfunc F() {\nn := 1\nif n > y") ∷ []

abbrev repository : Disk
repository p = if p =text codes "/r/realm/r/govern" then sources else []

abbrev raw : RawRow
raw = record {
  file = some (codes "a.gno");
  find = some (codes ">");
  substitute = some (codes "<=");
  pkg = some (codes "govern");
  label = some (codes "flip");
  elsewhere = none;
}

abbrev weaken : RawRow
weaken = record raw { substitute = some (codes ">=") }

-- The mutant that leaves `n` unused.
abbrev orphan : RawRow
orphan = record raw { find = some (codes "n > y"); substitute = some (codes "y") }

abbrev rows : List CorpusRow
rows = (codes "a.json", raw) ∷ (codes "a.json", weaken) ∷ []

abbrev any_text : Text → Bool
any_text s = true

abbrev same : Text → Text
same s = s

rows_pass : check_collisions any_text same repo repository rows ≡ 0
unfolding check_collisions Collisions.collisions Collisions.unappliable mutants classify
    Collisions.classify_pair Collisions.classify_text Collisions.entry_of Collisions.blob find_pkg
    get_file count replace_first index codes ◌=text◌ Text.drop_prefix Text.starts_with join_path
    Groups.repeated Groups.collect Groups.add Unused.unused_after Unused.enclosing Unused.upto_close
    Unused.all_decls Unused.decl_at Unused.decl_rest Unused.decls Unused.declared
    Unused.first_unused uses Unused.is_whole Unused.is_word_start is_identifier Output.is_word
    Text.split Text.strip Text.lstrip Text.rstrip Text.is_space
rows_pass = refl

check_collisions-distinct_example :
    (rows ≢ [])
    × All (IsUsable any_text repo repository) rows
    × (are_distinct same_mutant (mutants any_text repo repository rows) ≡ true)
check_collisions-distinct_example =
    check_collisions-distinct same any_text repo repository rows rows_pass

orphan_refused : check_collisions any_text same repo repository ((codes "a.json", orphan) ∷ []) ≡ 1
unfolding check_collisions Collisions.collisions Collisions.unappliable mutants classify
    Collisions.classify_pair Collisions.classify_text Collisions.entry_of Collisions.blob find_pkg
    get_file count replace_first index codes ◌=text◌ Text.drop_prefix Text.starts_with join_path
    Groups.repeated Groups.collect Groups.add Unused.unused_after Unused.enclosing Unused.upto_close
    Unused.all_decls Unused.decl_at Unused.decl_rest Unused.decls Unused.declared
    Unused.first_unused uses Unused.is_whole Unused.is_word_start is_identifier Output.is_word
    Text.split Text.strip Text.lstrip Text.rstrip Text.is_space
orphan_refused = refl

n_identifier : is_identifier (codes "n") ≡ true
unfolding is_identifier Unused.is_word_start Output.is_word codes
n_identifier = refl

uses-occurrences_example :
    uses (codes "n") false (codes "n := n2 + (n)")
    ≡ occurrences (codes "n") (word_list (codes "n := n2 + (n)"))
uses-occurrences_example = uses-occurrences (codes "n") (codes "n := n2 + (n)") n_identifier

abbrev triple : Triple
triple = record { at_file = codes "a.gno"; anchor = codes ">"; swap = codes "<=" }

abbrev flipped : Mutant
flipped = record { of_file = codes "a.gno"; mutated = codes "\nfunc F() {\nn := 1\nif n <= y" }

raw-required : required raw ≡ some triple
unfolding required
raw-required = refl

raw_classified : classify any_text repo repository raw ≡ mutant flipped
unfolding classify Collisions.classify_pair Collisions.classify_text Collisions.entry_of find_pkg
    get_file count replace_first index codes ◌=text◌ Text.drop_prefix Text.starts_with join_path
    Unused.unused_after Unused.enclosing Unused.upto_close Unused.all_decls Unused.decl_at
    Unused.decl_rest Unused.decls Unused.declared Unused.first_unused uses Unused.is_whole
    Unused.is_word_start is_identifier Output.is_word Text.split Text.strip Text.lstrip Text.rstrip
    Text.is_space
raw_classified = refl

a_staged : is_staged_file (codes "a.gno") ≡ true
unfolding is_staged_file Text.ends_with Text.starts_with Text.drop_prefix codes ◌=text◌
a_staged = refl

sources_Unstaged : Unstaged repo root pkg_table
unfolding is_under join_path ◌=text◌ codes Text.starts_with Text.drop_prefix
sources_Unstaged = (
  (refl, (refl, (refl, (refl, (refl, (refl, (refl, (refl, (refl, tt))))))))),
  (
    (refl, (refl, (refl, (refl, (refl, (refl, (refl, (refl, (refl, tt))))))))),
    (
      (refl, (refl, (refl, (refl, (refl, (refl, (refl, (refl, (refl, tt))))))))),
      (
        (refl, (refl, (refl, (refl, (refl, (refl, (refl, (refl, (refl, tt))))))))),
        (
          (refl, (refl, (refl, (refl, (refl, (refl, (refl, (refl, (refl, tt))))))))),
          (
            (refl, (refl, (refl, (refl, (refl, (refl, (refl, (refl, (refl, tt))))))))),
            (
              (refl, (refl, (refl, (refl, (refl, (refl, (refl, (refl, (refl, tt))))))))),
              (
                (refl, (refl, (refl, (refl, (refl, (refl, (refl, (refl, (refl, tt))))))))),
                ((refl, (refl, (refl, (refl, (refl, (refl, (refl, (refl, (refl, tt))))))))), tt),
              ),
            ),
          ),
        ),
      ),
    ),
  ),
)

classify-apply_mutation_example :
    (d : Disk) × (apply_mutation root
        (row_of (codes "flip") triple raw)
        (stage root (stage_pairs repo) repository)
      ≡ some d)
    × (get_file
          (codes "a.gno")
          (d (join_path root (Suite.row_rel (row_of (codes "flip") triple raw))))
        ≡ some flipped.mutated)
classify-apply_mutation_example =
    classify-apply_mutation any_text repo root (codes "flip") repository raw triple flipped
      sources_Unstaged raw-required a_staged raw_classified
