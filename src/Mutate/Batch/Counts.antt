-- ===== src/Mutate/Batch/Counts.antt =====
-- The numbers of a batch: every row is counted once.
use mathlib.Core.List.{flat_map}
use mathlib.Core.Path.{subst}
use mathlib.Core.Option.{some_inj}
use cryptocourt.Base.{
  ◌+◌, ◌≡◌, refl, ap, sym, ◌∙◌, true, Option, none, some, List, [], ◌∷◌, map, length, length-append,
  length-map, keep, arith, if◌then◌else◌, Option-cases, inl, inr,
}
use cryptocourt.Base.Text.{Text}
use cryptocourt.Base.Disk.{Disk}
use cryptocourt.Mutate.Suite.{Row, Toolchain, Suite, run_suite}
use cryptocourt.Mutate.Verdict.{Verdict, bad_anchor, is_caught, survivor_entry, elsewhere_entry}
use cryptocourt.Mutate.Batch.{
  Judged, survivors, elsewhere, judge_row, judge_rows, main, from_baseline, after_baseline,
  conclude, done,
}

abbrev pub caught_rows : List Judged → List Judged
caught_rows = keep λ (j : Judged). is_caught j.1

verdict_counts :
    (label covered : Text) (v : Verdict)
    → length (survivor_entry label v)
        + length (elsewhere_entry label covered v)
        + (if is_caught v then 1 else 0)
      ≡ 1
unfolding survivor_entry elsewhere_entry
verdict_counts label covered (bad_anchor n) = refl
verdict_counts label covered _ = refl

caught_step :
    (j : Judged) (rows : List Judged)
    → length (caught_rows (j ∷ rows)) ≡ (if is_caught j.1 then 1 else 0) + length (caught_rows rows)
caught_step j rows = ground arith

counts_add :
    (rows : List Judged)
    → length (survivors rows) + length (elsewhere rows) + length (caught_rows rows) ≡ length rows
unfolding flat_map
counts_add [] = refl
counts_add ((m, v) ∷ rows) = omega (
  arith,
  length-append (survivor_entry m.label v) (survivors rows),
  length-append (elsewhere_entry m.label m.elsewhere v) (elsewhere rows),
  caught_step (m, v) rows,
  verdict_counts m.label m.elsewhere v,
  counts_add rows,
)

module _ (tools : Toolchain) (repo root : Text) where
  judge_rows-cons :
      (m : Row) (muts : List Row) (disk : Disk) (v : Verdict × Disk) (rest : List Judged × Disk)
      → judge_row tools repo root m disk ≡ some v
      → judge_rows tools repo root muts v.1 ≡ some rest
      → judge_rows tools repo root (m ∷ muts) disk ≡ some ((m, v.0) ∷ rest.0, rest.1)
  unfolding judge_rows
  judge_rows-cons m muts disk v rest e f = rw (e, judge_rows, f)

  judge_rows-none :
      (m : Row) (muts : List Row) (disk : Disk)
      → judge_row tools repo root m disk ≡ none
      → judge_rows tools repo root (m ∷ muts) disk ≡ none
  unfolding judge_rows
  judge_rows-none m muts disk e = rw (e, judge_rows)

  judge_rows-none_rest :
      (m : Row) (muts : List Row) (disk : Disk) (v : Verdict × Disk)
      → judge_row tools repo root m disk ≡ some v
      → judge_rows tools repo root muts v.1 ≡ none
      → judge_rows tools repo root (m ∷ muts) disk ≡ none
  unfolding judge_rows
  judge_rows-none_rest m muts disk v e f = rw (e, judge_rows, f)

  judge_rows-nil : {disk : Disk} → judge_rows tools repo root [] disk ≡ some ([], disk)
  unfolding judge_rows
  judge_rows-nil = refl

  -- What a run of the rows went through: each row's verdict and the disk behind it.
  pub data RowsRun : List Row → Disk → List Judged → Disk → Type 0 where
    stop : {disk : Disk} → RowsRun [] disk [] disk
    step :
        {m : Row} {muts : List Row} {disk : Disk} {v : Verdict × Disk} {rows : List Judged}
        {d : Disk}
        → judge_row tools repo root m disk ≡ some v
        → RowsRun muts v.1 rows d
        → RowsRun (m ∷ muts) disk ((m, v.0) ∷ rows) d

  pub judge_rows-RowsRun :
      (muts : List Row) (disk : Disk) (r : List Judged × Disk)
      → judge_rows tools repo root muts disk ≡ some r
      → RowsRun muts disk r.0 r.1
  judge_rows-RowsRun [] disk r h =
      subst (λ (x : List Judged × Disk). RowsRun [] disk x.0 x.1)
        (some_inj.0 (sym judge_rows-nil ∙ h)) stop
  judge_rows-RowsRun (m ∷ muts) disk r h = elim (Option-cases (judge_row tools repo root m disk)) [
    | inl e ↦ cc (h, judge_rows-none m muts disk e)
    | inr (v, e) ↦ elim (Option-cases (judge_rows tools repo root muts v.1)) [
      | inl f ↦ cc (h, judge_rows-none_rest m muts disk v e f)
      | inr (rest, f) ↦
          subst (λ (x : List Judged × Disk). RowsRun (m ∷ muts) disk x.0 x.1)
            (some_inj.0 (sym (judge_rows-cons m muts disk v rest e f) ∙ h))
            (step e (judge_rows-RowsRun muts v.1 rest f))
    ]
  ]

  RowsRun-order :
      {muts : List Row} {disk : Disk} {rows : List Judged} {d : Disk}
      → RowsRun muts disk rows d
      → map (λ (j : Judged). j.0) rows ≡ muts
  RowsRun-order stop = refl
  RowsRun-order (step {m} e rest) = ap (λ ms. m ∷ ms) (RowsRun-order rest)

  -- What a batch that is done went through: a baseline that passed, and the rows.
  pub record Finished (muts : List Row) (disk : Disk) (rows : List Judged) (behind : Disk)
      : Type 0 where
    pub base : Suite × Disk
    pub ran : run_suite tools repo root none none disk ≡ some base
    pub passed : base.0.passed ≡ true
    pub none_hung : base.0.hung ≡ []
    pub measured : RowsRun muts base.1 rows behind

  conclude_inv :
      (o : Option (List Judged × Disk)) (rows : List Judged) (d : Disk)
      → conclude tools repo root o ≡ done rows d
      → o ≡ some (rows, d)
  conclude_inv none rows d h = cc
  conclude_inv (some r) rows d h = ground arith

  after_baseline_inv :
      (muts : List Row) (base : Suite × Disk) (rows : List Judged) (d : Disk)
      → after_baseline tools repo root muts base ≡ done rows d
      → (base.0.passed ≡ true)
        × (base.0.hung ≡ [])
        × (conclude tools repo root (judge_rows tools repo root muts base.1) ≡ done rows d)
  after_baseline_inv muts base rows d h = ground arith

  from_baseline-Finished :
      (muts : List Row) (disk : Disk) (o : Option (Suite × Disk)) (rows : List Judged) (d : Disk)
      → run_suite tools repo root none none disk ≡ o
      → from_baseline tools repo root muts o ≡ done rows d
      → Finished muts disk rows d
  from_baseline-Finished muts disk none rows d e h = cc
  from_baseline-Finished muts disk (some base) rows d e h =
      let (passed, calm, finished) = after_baseline_inv muts base rows d h in
      record {
        base = base;
        ran = e;
        passed = passed;
        none_hung = calm;
        measured =
            judge_rows-RowsRun muts base.1 (rows, d)
              (conclude_inv (judge_rows tools repo root muts base.1) rows d finished);
      }

  pub main-Finished :
      (muts : List Row) (disk : Disk) (rows : List Judged) (d : Disk)
      → main tools repo root muts disk ≡ done rows d
      → Finished muts disk rows d
  unfolding main
  main-Finished [] disk rows d h = cc
  main-Finished (m ∷ muts) disk rows d h =
      from_baseline-Finished (m ∷ muts) disk (run_suite tools repo root none none disk) rows d refl
        h

  -- A batch that is done has one verdict for each row, in the order of the batch, and the entries of
  -- rows not caught, the entries of rows covered elsewhere and the caught rows are together as many as
  -- the rows.
  pub main-done :
      (muts : List Row) (disk : Disk) (rows : List Judged) (d : Disk)
      → main tools repo root muts disk ≡ done rows d
      → (map (λ (j : Judged). j.0) rows ≡ muts)
        × (length (survivors rows) + length (elsewhere rows) + length (caught_rows rows)
            ≡ length muts)
  main-done muts disk rows d h =
      let order = RowsRun-order (main-Finished muts disk rows d h).measured in
      (order, counts_add rows ∙ sym (length-map (λ (j : Judged). j.0) rows) ∙ ap length order)
