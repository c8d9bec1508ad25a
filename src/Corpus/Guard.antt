-- ===== src/Corpus/Guard.antt =====
-- scripts/check-mutation-anchors.py: `main`, behind the lock and the fixtures. The corpus files are what
-- `json.load` makes of them.
pub mod Healthy
use cryptocourt.Base.{
  ℕ, ◌+◌, Bool, true, false, not, ◌&&◌, List, [], ◌∷◌, ◌++◌, map, keep, length, ◌==◌, if◌then◌else◌,
}
use cryptocourt.Base.Text.{Text, codes, text_in}
use cryptocourt.Mutate.Output.{sorted_set}
use cryptocourt.Mutate.Verdict.{is_nil}
use cryptocourt.Mutate.Tables.{pkg_names, observer_table}
use cryptocourt.Corpus.Makefile.{Routine}
use cryptocourt.Corpus.Rows.{Entry, Resolved, Placed, row_verdicts, cross_verdicts}

-- `MAY_BE_EMPTY`.
abbrev may_be_empty : List Text
may_be_empty = codes "scripts/mutations-kourtv2-KNOWN-GAPS.json" ∷ []

unfoldable pub is_allowed_empty : Text → Bool
unfolding text_in
is_allowed_empty rel = text_in rel may_be_empty

pub data CorpusFile : Type 0 where
  unreadable not_list : CorpusFile
  items : List Entry → CorpusFile

-- `set(pkgs) - set(OBSERVERS)`, in order.
unfoldable pub blind : List Text → List Text → List Text
unfolding sorted_set text_in
blind pkgs observed = sorted_set (keep (λ p. not (text_in p observed)) pkgs)

pub record Tally : Type 0 where
  pub bad : ℕ
  pub total : ℕ
  pub pairs : List Placed

abbrev pub nothing_yet : Tally
nothing_yet = record { bad = 0; total = 0; pairs = [] }

-- How `main` ends: `clean` with the number of rows, `problems` with that of the problems.
pub data Ending : Type 0 where
  no_observers : List Text → Ending
  no_corpora : Ending
  problems : ℕ → Ending
  clean : ℕ → Ending

unfoldable pub guard_exit : Ending → ℕ
guard_exit (clean n) = 0
guard_exit (no_observers names) = 1
guard_exit no_corpora = 1
guard_exit (problems n) = 1

-- The problems of the tally with those between rows, and one more where no row was read.
unfoldable pub all_problems : Tally → ℕ
unfolding cross_verdicts
all_problems t = t.bad + length (cross_verdicts t.pairs) + (if t.total == 0 then 1 else 0)

abbrev pub judge_tally : Tally → Ending
judge_tally t = if all_problems t == 0 then clean t.total else problems (all_problems t)

module _ (exists : Text → Bool) (routine : Text → Routine) (resolve : Text → Text → Resolved) where
  -- One turn of the loop over the corpus files.
  unfoldable pub visit : Text → CorpusFile → Tally → Tally
  visit rel unreadable t = record t { bad = t.bad + 1 }
  visit rel not_list t = record t { bad = t.bad + 1 }
  visit rel (items rows) t =
      if is_nil rows && not (is_allowed_empty rel) then record t { bad = t.bad + 1 } else record {
        bad = t.bad + length (row_verdicts exists routine resolve rows);
        total = t.total + length rows;
        pairs = t.pairs ++ map (λ (r : Entry). (rel, r)) rows;
      }

  unfoldable pub visit_all : List (Text × CorpusFile) → Tally → Tally
  unfolding visit
  visit_all [] t = t
  visit_all ((rel, f) ∷ files) t = visit_all files (visit rel f t)

  abbrev pub check_corpora : List (Text × CorpusFile) → Ending
  check_corpora [] = no_corpora
  check_corpora (f ∷ files) = judge_tally (visit_all (f ∷ files) nothing_yet)

  -- The corpus files in the order of their names.
  unfoldable pub check_anchors : List (Text × CorpusFile) → Ending
  unfolding blind visit_all all_problems
  check_anchors files =
      elim (blind pkg_names (map (λ (x : Text × List Text). x.0) observer_table)) [
        | [] ↦ check_corpora files
        | p ∷ ps ↦ no_observers (p ∷ ps)
      ]
