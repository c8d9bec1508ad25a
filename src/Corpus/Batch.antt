-- ===== src/Corpus/Batch.antt =====
-- scripts/check-mutation-anchors.py beside scripts/mutate.py: what the guard promises the batch that is run on the
-- same tree.
pub mod Promise
pub mod Complete
use mathlib.Core.Option.{some_inj}
use cryptocourt.Base.{
  ℕ, ◌≡◌, ◌≢◌, refl, ap, sym, ◌∙◌, Bool, true, false, Option, none, some, List, [], ◌∷◌, map, All,
  arith, ◌==◌, if◌then◌else◌, Option-cases, Bool-cases, inl, inr,
}
use cryptocourt.Base.Text.{Text, ◌=text◌, count}
use cryptocourt.Base.Disk.{Disk, get_file}
use cryptocourt.Shadow.Staging.{Outside}
use cryptocourt.Mutate.Tables.{pkg_table, find_pkg}
use cryptocourt.Mutate.Suite.{
  Row, row_pkg, Toolchain, Suite, source_dir, stage_pairs, row_path, anchor_count, run_suite,
}
use cryptocourt.Mutate.Suite.Sources.{run_suite_outside}
use cryptocourt.Mutate.Verdict.{Verdict, bad_anchor, judge}
use cryptocourt.Mutate.Batch.{Judged, judge_suite, judge_count, judge_row, main, done}
use cryptocourt.Mutate.Batch.Counts.{RowsRun, stop, step, main-Finished}
use cryptocourt.Mutate.Batch.Untouched.{judge_count_outside}
use cryptocourt.Corpus.Makefile.{Routine}
use cryptocourt.Corpus.Rows.{
  RawRow, Entry, object, Resolved, no_package, no_file, found, Triple, required, raw_pkg,
  row_verdicts,
}
use cryptocourt.Corpus.Rows.Sound.{IsSound, is_sound, IsAnchored, is_anchored, row_verdicts-nil}

-- `resolve` of the guard's `main`: the map and the directories are those of mutate.py.
unfoldable pub resolve : (repo : Text) → Disk → Text → Text → Resolved
unfolding find_pkg get_file
resolve repo disk pkg f = elim (find_pkg pkg pkg_table) [
  | none ↦ no_package
  | some dirs ↦ elim (get_file f (disk (source_dir repo dirs.0))) [
    | none ↦ no_file
    | some text ↦ found text
  ]
]

-- The row as mutate.py reads it: `m["label"]` and the keys of a triple, with its defaults for the others.
abbrev text_or_empty : Option Text → Text
text_or_empty none = []
text_or_empty (some s) = s

unfoldable pub row_of : Text → Triple → RawRow → Row
row_of label t r = record {
  file = t.at_file;
  label = label;
  find = t.anchor;
  substitute = t.swap;
  pkg = r.pkg;
  elsewhere = text_or_empty r.elsewhere;
}

-- The rows of a corpus as both scripts read them.
pub data Reads : List RawRow → List Row → Type 0 where
  no_rows : Reads [] []
  one_row :
      (r : RawRow) (label : Text) (t : Triple) {rows : List RawRow} {muts : List Row}
      → required r ≡ some t
      → r.label ≡ some label
      → Reads rows muts
      → Reads (r ∷ rows) (row_of label t r ∷ muts)

abbrev pub is_bad_anchor : Verdict → Bool
is_bad_anchor (bad_anchor n) = true
is_bad_anchor _ = false

module _ (repo root : Text) where
  -- The row's file, which no staging touches, has its anchor once.
  pub record IsReady (disk : Disk) (m : Row) : Type 0 where
    pub dirs : Text × Text
    pub known : find_pkg (row_pkg m) pkg_table ≡ some dirs
    pub text : Text
    pub held : get_file m.file (disk (source_dir repo dirs.0)) ≡ some text
    pub once : count m.find text ≡ 1
    pub apart : Outside root (stage_pairs repo) (source_dir repo dirs.0)

  pub anchor_count-IsReady :
      (disk : Disk) (m : Row) → IsReady disk m → anchor_count repo disk m ≡ some 1
  unfolding anchor_count row_path
  anchor_count-IsReady disk m r = rw (r.known, anchor_count, row_path, r.held, r.once)

  IsReady-same :
      (disk disk' : Disk) (m : Row)
      → ((p : Text) → Outside root (stage_pairs repo) p → disk' p ≡ disk p)
      → IsReady disk m
      → IsReady disk' m
  IsReady-same disk disk' m same r = record {
    dirs = r.dirs;
    known = r.known;
    text = r.text;
    held = ap (get_file m.file) (same (source_dir repo r.dirs.0) r.apart) ∙ r.held;
    once = r.once;
    apart = r.apart;
  }

  pub All-IsReady :
      (disk disk' : Disk) (muts : List Row)
      → ((p : Text) → Outside root (stage_pairs repo) p → disk' p ≡ disk p)
      → All (IsReady disk) muts
      → All (IsReady disk') muts
  All-IsReady disk disk' [] same h = tt
  All-IsReady disk disk' (m ∷ muts) same (h, hs) =
      (IsReady-same disk disk' m same h, All-IsReady disk disk' muts same hs)

  module _ (tools : Toolchain) where
    judge-ne-bad_anchor : (covered : Text) (s : Suite) → is_bad_anchor (judge covered s) ≡ false
    unfolding judge
    judge-ne-bad_anchor covered s = ground arith

    judge_suite-ne-bad_anchor :
        (m : Row) (o : Option (Suite × Disk)) (v : Verdict × Disk)
        → judge_suite tools repo root m o ≡ some v
        → is_bad_anchor v.0 ≡ false
    judge_suite-ne-bad_anchor m none v h = cc h
    judge_suite-ne-bad_anchor m (some r) v h =
        rw (← some_inj.0 h) (judge-ne-bad_anchor m.elsewhere r.0)

    judge_row-ne-bad_anchor :
        (m : Row) (disk : Disk) (v : Verdict × Disk)
        → IsReady disk m
        → judge_row tools repo root m disk ≡ some v
        → is_bad_anchor v.0 ≡ false
    unfolding judge_row
    judge_row-ne-bad_anchor m disk v r h =
        judge_suite-ne-bad_anchor m (run_suite tools repo root (some (row_pkg m)) (some m) disk) v
          (ap (judge_count tools repo root m disk) (sym (anchor_count-IsReady disk m r)) ∙ h)

    pub RowsRun-ready :
        {muts : List Row} {disk : Disk} {rows : List Judged} {d : Disk}
        → RowsRun tools repo root muts disk rows d
        → All (IsReady disk) muts
        → All (λ (j : Judged). is_bad_anchor j.1 ≡ false) rows
    unfolding judge_row
    RowsRun-ready stop h = tt
    RowsRun-ready (step {m} {muts} {disk} {v} e rest) (h, hs) = (
      judge_row-ne-bad_anchor m disk v h e,
      RowsRun-ready rest (
          All-IsReady disk v.1 muts
            (λ p out.
              judge_count_outside tools repo root p out m disk (anchor_count repo disk m) v e)
            hs),
    )
