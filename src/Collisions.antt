-- ===== src/Collisions.antt =====
-- scripts/check-mutant-collisions.py: `main` behind the lock. The digest and gofmt are parameters.
pub mod Unused
pub mod Distinct
pub mod Staged
pub mod Tests
use cryptocourt.Base.{
  ℕ, Bool, true, false, not, ◌&&◌, Option, none, some, List, [], ◌∷◌, ◌++◌, map, length, ltb, ◌==◌,
  if◌then◌else◌,
}
use cryptocourt.Base.Text.{Text, codes, ◌=text◌, count}
use cryptocourt.Base.Text.Replace.First.{replace_first, index}
use cryptocourt.Base.Disk.{Disk, get_file}
use cryptocourt.Base.Groups.{repeated}
use cryptocourt.Mutate.Suite.{source_dir}
use cryptocourt.Mutate.Tables.{pkg_table, find_pkg}
use cryptocourt.Mutate.Verdict.{is_nil}
use cryptocourt.Corpus.Rows.{RawRow}
use cryptocourt.Collisions.Unused.{unused_after}

-- Why a row yields no usable mutant.
pub data Reason : Type 0 where
  unknown_pkg missing_file no_pair unchanged unparsed : Reason
  miscounted : ℕ → Reason
  orphaned : Text → Reason

-- A mutant: the row's file and the mutated text.
pub record Mutant : Type 0 where
  pub of_file : Text
  pub mutated : Text

pub data Classified : Type 0 where
  unusable : Reason → Classified
  mutant : Mutant → Classified

-- A corpus file's name with one of its rows.
abbrev pub CorpusRow : Type 0
CorpusRow = Text × RawRow

abbrev or_empty : Option Text → Text
or_empty none = []
or_empty (some s) = s

-- `PKGS.get(r.get("pkg"))`: a row without a package has no entry.
unfoldable pub entry_of : Option Text → Option (Text × Text)
unfolding find_pkg
entry_of none = none
entry_of (some p) = find_pkg p pkg_table

module _ (parses : Text → Bool) where
  -- From the number of occurrences on.
  unfoldable pub classify_text : Text → Text → Text → Text → Classified
  unfolding replace_first index unused_after ◌=text◌
  classify_text f src find swap =
      let result = replace_first find swap src in
      if not (count find src == 1)
      then unusable (miscounted (count find src))
      else if result =text src
      then unusable unchanged
      else if not (parses result)
      then unusable unparsed
      else elim (unused_after result (index find src)) [
        | some name ↦ unusable (orphaned name)
        | none ↦ mutant (record { of_file = f; mutated = result })
      ]

  unfoldable pub classify_pair : Text → Text → Option Text → Option Text → Classified
  unfolding classify_text
  classify_pair f src none swap = unusable no_pair
  classify_pair f src (some find) none = unusable no_pair
  classify_pair f src (some find) (some swap) = classify_text f src find swap

  -- One turn of the loop over the rows.
  unfoldable pub classify : Text → Disk → RawRow → Classified
  unfolding entry_of classify_pair get_file
  classify repo disk r = elim (entry_of r.pkg) [
    | none ↦ unusable unknown_pkg
    | some dirs ↦ elim (get_file (or_empty r.file) (disk (source_dir repo dirs.0))) [
      | none ↦ unusable missing_file
      | some src ↦ classify_pair (or_empty r.file) src r.find r.substitute
    ]
  ]

  unfoldable pub mutants : Text → Disk → List CorpusRow → List (Mutant × CorpusRow)
  mutants repo disk [] = []
  mutants repo disk ((rel, r) ∷ rows) = elim (classify repo disk r) [
    | unusable why ↦ mutants repo disk rows
    | mutant m ↦ (m, (rel, r)) ∷ mutants repo disk rows
  ]

  unfoldable pub unappliable : Text → Disk → List CorpusRow → List (CorpusRow × Reason)
  unappliable repo disk [] = []
  unappliable repo disk ((rel, r) ∷ rows) = elim (classify repo disk r) [
    | unusable why ↦ ((rel, r), why) ∷ unappliable repo disk rows
    | mutant m ↦ unappliable repo disk rows
  ]

-- `r["file"] + "\0" + mutated`.
unfoldable pub blob : Mutant → Text
blob m = m.of_file ++ 0 ∷ m.mutated

module _ (parses : Text → Bool) (digest : Text → Text) where
  -- `mutants`, by digest, and the groups of more than one row.
  unfoldable pub collisions : Text → Disk → List CorpusRow → List (Text × List CorpusRow)
  unfolding repeated mutants blob ◌=text◌
  collisions repo disk rows =
      repeated ◌=text◌
        (map (λ (m : Mutant × CorpusRow). (digest (blob m.0), m.1)) (mutants parses repo disk rows))

  -- The exit code.
  unfoldable pub check_collisions : Text → Disk → List CorpusRow → ℕ
  unfolding collisions unappliable
  check_collisions repo disk [] = 1
  check_collisions repo disk (r ∷ rows) =
      if is_nil (collisions repo disk (r ∷ rows))
        && is_nil (unappliable parses repo disk (r ∷ rows))
      then 0
      else 1
