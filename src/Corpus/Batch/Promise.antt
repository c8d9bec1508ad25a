-- ===== src/Corpus/Batch/Promise.antt =====
-- scripts/check-mutation-anchors.py before scripts/mutate.py: sound rows are ready for the batch.
use mathlib.Core.Option.{some_inj}
use cryptocourt.Base.{
  ◌≡◌, refl, Bool, false, none, some, List, [], ◌∷◌, map, All, Option-cases, Bool-cases, inl, inr,
}
use cryptocourt.Base.Text.{Text, ◌=text◌, count}
use cryptocourt.Base.Disk.{Disk, get_file}
use cryptocourt.Shadow.Staging.{Outside}
use cryptocourt.Mutate.Tables.{pkg_table, find_pkg}
use cryptocourt.Mutate.Suite.{Row, row_pkg, Toolchain, source_dir, stage_pairs}
use cryptocourt.Mutate.Suite.Sources.{run_suite_outside}
use cryptocourt.Mutate.Batch.{Judged, main, done}
use cryptocourt.Mutate.Batch.Counts.{main-Finished}
use cryptocourt.Corpus.Makefile.{Routine}
use cryptocourt.Corpus.Rows.{
  RawRow, object, Resolved, found, Triple, required, raw_pkg, row_verdicts,
}
use cryptocourt.Corpus.Rows.Sound.{
  IsSound, IsSound-parts, IsAnchored, is_anchored, row_verdicts-nil,
}
use cryptocourt.Corpus.Batch.{
  resolve, row_of, Reads, no_rows, one_row, is_bad_anchor, IsReady, All-IsReady, RowsRun-ready,
}

-- The directories of a table's packages are outside the staged trees.
abbrev pub Unstaged : Text → Text → List (Text × (Text × Text)) → Type 0
Unstaged repo root table =
    All (λ (e : Text × (Text × Text)). Outside root (stage_pairs repo) (source_dir repo e.1.0))
      table

pub find_pkg-Unstaged :
    (repo root k : Text) (table : List (Text × (Text × Text))) (dirs : Text × Text)
    → find_pkg k table ≡ some dirs
    → Unstaged repo root table
    → Outside root (stage_pairs repo) (source_dir repo dirs.0)
unfolding find_pkg
find_pkg-Unstaged repo root k [] dirs e h = cc e
find_pkg-Unstaged repo root k ((n, a) ∷ table) dirs e (h, hs) = elim (Bool-cases (k =text n)) [
  | inl same ↦ rw (← some_inj.0 (rw same at e)) h
  | inr apart ↦ find_pkg-Unstaged repo root k table dirs (rw apart at e) hs
]

resolve-found :
    (repo : Text) (disk : Disk) (pkg f text : Text)
    → resolve repo disk pkg f ≡ found text
    → (dirs : Text × Text) × (find_pkg pkg pkg_table ≡ some dirs)
      × (get_file f (disk (source_dir repo dirs.0)) ≡ some text)
unfolding resolve
resolve-found repo disk pkg f text h = elim (Option-cases (find_pkg pkg pkg_table)) [
  | inl e ↦ absurd (cc (rw (e, resolve) at h))
  | inr (dirs, e) ↦ elim (Option-cases (get_file f (disk (source_dir repo dirs.0)))) [
    | inl g ↦ absurd (cc (rw (e, resolve, g) at h))
    | inr (s, g) ↦ let same = rw (e, resolve, g) at h in (dirs, e, cc (g, same))
  ]
]

IsAnchored-text :
    {t : Triple} {o : Resolved}
    → IsAnchored t o
    → (text : Text) × (o ≡ found text) × (count t.anchor text ≡ 1)
IsAnchored-text (is_anchored text ne once) = (text, refl, once)

module _ (exists : Text → Bool) (routine : Text → Routine) (repo root : Text) (disk : Disk)
    (apart : Unstaged repo root pkg_table) where
  IsSound-IsReady :
      (r : RawRow) (label : Text) (t : Triple)
      → required r ≡ some t
      → IsSound exists routine (resolve repo disk) (object r)
      → IsReady repo root disk (row_of label t r)
  unfolding row_of row_pkg raw_pkg
  IsSound-IsReady r label t e h =
      let (n, x, a) = IsSound-parts exists routine (resolve repo disk) h e in
      let (text, anchored, once) = IsAnchored-text a in
      let (dirs, known, held) = resolve-found repo disk (raw_pkg r) t.at_file text anchored in
      record {
        dirs = dirs;
        known = known;
        text = text;
        held = held;
        once = once;
        apart = find_pkg-Unstaged repo root (raw_pkg r) pkg_table dirs known apart;
      }

  pub Reads-IsReady :
      {rows : List RawRow} {muts : List Row}
      → Reads rows muts
      → All (IsSound exists routine (resolve repo disk)) (map object rows)
      → All (IsReady repo root disk) muts
  Reads-IsReady no_rows h = tt
  Reads-IsReady (one_row r label t e f rest) (h, hs) =
      (IsSound-IsReady r label t e h, Reads-IsReady rest hs)

  -- Where the guard finds nothing wrong with the rows of a corpus on a disk, and the sources are outside the
  -- staged trees, a batch over these rows that starts on this disk and is done has no bad anchor in it: neither
  -- the baseline nor the mutants before a row change what its anchor counts.
  pub main-no_bad_anchor :
      (tools : Toolchain) (rows : List RawRow) (muts : List Row) (judged : List Judged) (d : Disk)
      → row_verdicts exists routine (resolve repo disk) (map object rows) ≡ []
      → Reads rows muts
      → main tools repo root muts disk ≡ done judged d
      → All (λ (j : Judged). is_bad_anchor j.1 ≡ false) judged
  main-no_bad_anchor tools rows muts judged d clean reads h =
      let f = main-Finished tools repo root muts disk judged d h in
      let sound = (row_verdicts-nil exists routine (resolve repo disk) (map object rows)).0 clean in
      RowsRun-ready repo root tools f.measured (
        All-IsReady repo root disk f.base.1 muts
          (λ p out. run_suite_outside repo root p out tools none none disk f.base f.ran)
          (Reads-IsReady reads sound))
