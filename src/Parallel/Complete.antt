-- ===== src/Parallel/Complete.antt =====
-- scripts/mutate.py under scripts/mutate-parallel.py: shards that end in `done`, and the exit code over them.
use cryptocourt.Base.{
  ℕ, suc, ◌+◌, ◌≡◌, refl, ap, ◌++◌, ◌∙◌, false, none, some, List, [], ◌∷◌, map, All, length, sum,
  arith, ==_refl,
}
use cryptocourt.Base.Text.{contains, codes}
use cryptocourt.Mutate.Verdict.{row_line}
use cryptocourt.Mutate.Batch.{Judged, survivors, printed, complaints}
use cryptocourt.Parallel.Calm.{IsNamed, contains-complaints}
use cryptocourt.Parallel.Report.{summary}
use cryptocourt.Parallel.Collect.{
  ShardRun, Gathered, baseline_breaks, summed_part, shard_part, both, gather, verdict, exit_code,
}
use mathlib.Core.List.{flat_map}
use cryptocourt.Parallel.Sections.{IsEntry}
use cryptocourt.Parallel.Listed.{section-survivors}
use cryptocourt.Parallel.Printed.{print_lines, summary-printed}

-- The run of a shard that ends in `done` with these rows: it exits with 0, and on standard error it complains of the
-- codes that are not known. `text=True` turns a carriage return into a line break; there is taken to be none.
abbrev pub shard_of : ℕ → List Judged → ShardRun
shard_of timeout rows = record {
  code = 0;
  stdout = print_lines (printed timeout rows);
  stderr = print_lines (complaints rows);
}

-- No row's own line holds a summary.
abbrev pub IsPlain : ℕ → List Judged → Type 0
IsPlain timeout =
    All (λ (j : Judged). summary (row_line timeout j.0.label j.0.elsewhere j.1) ≡ none)

calm_breaks :
    (i : ℕ) (r : ShardRun)
    → r.code ≡ 0
    → contains (codes "BASELINE DID NOT FINISH") r.stderr ≡ false
    → contains (codes "BASELINE IS RED") r.stderr ≡ false
    → baseline_breaks i r ≡ []
unfolding baseline_breaks
calm_breaks i r zero_exit no_hang no_red = ground arith

quiet :
    (i : ℕ) (timeout : ℕ) (rows : List Judged)
    → All IsNamed rows
    → baseline_breaks i (shard_of timeout rows) ≡ []
quiet i timeout rows named =
    let (no_hang, no_red) = contains-complaints rows named in
    calm_breaks i (shard_of timeout rows) refl no_hang no_red

shard_part-total :
    (i timeout : ℕ) (rows : List Judged)
    → IsPlain timeout rows
    → All IsNamed rows
    → ((shard_part i (some (shard_of timeout rows))).broken ≡ [])
      × ((shard_part i (some (shard_of timeout rows))).total ≡ length rows)
unfolding shard_part summed_part
shard_part-total i timeout rows h named =
    rw (summary-printed timeout rows h) (quiet i timeout rows named, refl)

both-total :
    (a b : Gathered) {m n : ℕ}
    → a.broken ≡ []
    → b.broken ≡ []
    → a.total ≡ m
    → b.total ≡ n
    → ((both a b).broken ≡ []) × ((both a b).total ≡ m + n)
unfolding both
both-total a b ca cb ta tb = (rw (ca, cb) refl, omega (arith, ta, tb))

exit_code-reported :
    (sent : ℕ) (g : Gathered)
    → g.broken ≡ []
    → g.total ≡ sent
    → exit_code (verdict false sent g) ≡ 0
unfolding exit_code verdict
exit_code-reported sent g calm e = rw (calm, e, ==_refl sent) refl

gather-total :
    (i timeout : ℕ) (shards : List (List Judged))
    → All (IsPlain timeout) shards
    → All (All IsNamed) shards
    → ((gather i (map (λ rows. some (shard_of timeout rows)) shards)).broken ≡ [])
      × ((gather i (map (λ rows. some (shard_of timeout rows)) shards)).total
          ≡ sum (map length shards))
unfolding gather
gather-total i timeout [] h named = (refl, refl)
gather-total i timeout (rows ∷ shards) (h, hs) (n, ns) =
    let (calm, counted) = shard_part-total i timeout rows h n in
    let (rest, more) = gather-total (suc i) timeout shards hs ns in
    both-total (shard_part i (some (shard_of timeout rows)))
      (gather (suc i) (map (λ (r : List Judged). some (shard_of timeout r)) shards)) calm rest
      counted more

-- Where every shard ends in `done`, no row's own line holds a summary, each code that a row's suite reports unknown is a
-- word that ends in "Error", and the shards together have as many rows as were sent, the parallel run exits with 0 when
-- it does not expect rows to survive: what the shards write to standard error holds no message on the baseline.
pub exit_code-shard_of :
    (timeout sent : ℕ) (shards : List (List Judged))
    → All (IsPlain timeout) shards
    → All (All IsNamed) shards
    → sum (map length shards) ≡ sent
    → exit_code (verdict false sent (gather 0 (map (λ rows. some (shard_of timeout rows)) shards)))
      ≡ 0
exit_code-shard_of timeout sent shards h named e =
    let (calm, counted) = gather-total 0 timeout shards h named in
    exit_code-reported sent
      (gather 0 (map (λ (rows : List Judged). some (shard_of timeout rows)) shards)) calm
      (counted ∙ e)

-- What one shard adds to the list of the rows not caught.
shard_part-survivors :
    (i timeout : ℕ) (rows : List Judged)
    → IsPlain timeout rows
    → All IsEntry (survivors rows)
    → (shard_part i (some (shard_of timeout rows))).notcaught ≡ survivors rows
unfolding shard_part summed_part
shard_part-survivors i timeout rows h k =
    rw (summary-printed timeout rows h) (section-survivors timeout rows h k)

-- The list of the rows not caught of the parallel run is that of all shards, one after the other, if each shard ends in
-- `done`, no row's own line holds a summary, and each entry is one line without white space around it.
pub gather-survivors :
    (i timeout : ℕ) (shards : List (List Judged))
    → All (IsPlain timeout) shards
    → All (λ (rows : List Judged). All IsEntry (survivors rows)) shards
    → (gather i (map (λ rows. some (shard_of timeout rows)) shards)).notcaught
      ≡ flat_map survivors shards
unfolding gather both flat_map
gather-survivors i timeout [] h k = refl
gather-survivors i timeout (rows ∷ shards) (h, hs) (k, ks) =
    rw (shard_part-survivors i timeout rows h k)
      (ap (λ es. survivors rows ++ es) (gather-survivors (suc i) timeout shards hs ks))
