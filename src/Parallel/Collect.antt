-- ===== src/Parallel/Collect.antt =====
-- scripts/mutate-parallel.py: `main` from the results of the shards to the exit code.
pub mod Accounted
use cryptocourt.Base.{
  ℕ, suc, ◌+◌, Bool, true, false, not, ◌&&◌, ◌||◌, Option, none, some, List, [], ◌∷◌, ◌++◌, map,
  keep, ◌==◌, if◌then◌else◌,
}
use cryptocourt.Base.Text.{Text, codes, contains, split, strip, newline}
use cryptocourt.Mutate.Verdict.{is_nil}
use cryptocourt.Parallel.Report.{is_row, is_caught_row, summary, section, is_unmeasured}

-- What `run_shard` keeps of one run of mutate.py.
pub record ShardRun : Type 0 where
  pub code : ℕ
  pub stdout : Text
  pub stderr : Text

-- Why the run is not a result; the number is the shard's.
pub data Broken : Type 0 where
  produced_nothing : ℕ → Broken
  baseline_hung : ℕ → Broken
  baseline_red : ℕ → Broken
  exited : ℕ → ℕ → Broken
  no_summary : ℕ → Broken

-- The lists that the loop over the shards fills.
pub record Gathered : Type 0 where
  pub broken : List Broken
  pub rows : List Text
  pub caught : List Text
  pub total : ℕ
  pub notcaught : List Text
  pub elsewhere : List Text

-- The chain of `if` on the exit code and on the standard error.
unfoldable pub baseline_breaks : ℕ → ShardRun → List Broken
unfolding contains
baseline_breaks i r =
    if contains (codes "BASELINE DID NOT FINISH") r.stderr
    then baseline_hung i ∷ []
    else if contains (codes "BASELINE IS RED") r.stderr || r.code == 2
    then baseline_red i ∷ []
    else if not (r.code == 0)
    then exited i r.code ∷ []
    else []

unfoldable pub shard_rows : ShardRun → List Text
unfolding is_row split
shard_rows r = keep is_row (split newline r.stdout)

unfoldable pub shard_caught : ShardRun → List Text
unfolding is_caught_row strip
shard_caught r = map strip (keep is_caught_row (shard_rows r))

-- What a shard adds whose output has the given summary.
unfoldable pub summed_part : ℕ → ShardRun → Option (Text × ℕ) → Gathered
unfolding section baseline_breaks shard_rows shard_caught
summed_part i r none = record {
  broken = baseline_breaks i r ++ no_summary i ∷ [];
  rows = shard_rows r;
  caught = shard_caught r;
  total = 0;
  notcaught = [];
  elsewhere = [];
}
summed_part i r (some m) = record {
  broken = baseline_breaks i r;
  rows = shard_rows r;
  caught = shard_caught r;
  total = m.1;
  notcaught = section r.stdout m.0;
  elsewhere = section r.stdout (codes "survive here BY DESIGN");
}

-- What one shard adds to the lists.
unfoldable pub shard_part : ℕ → Option ShardRun → Gathered
unfolding summary summed_part
shard_part i none = record {
  broken = produced_nothing i ∷ [];
  rows = [];
  caught = [];
  total = 0;
  notcaught = [];
  elsewhere = [];
}
shard_part i (some r) = summed_part i r (summary r.stdout)

unfoldable pub both : Gathered → Gathered → Gathered
both a b = record {
  broken = a.broken ++ b.broken;
  rows = a.rows ++ b.rows;
  caught = a.caught ++ b.caught;
  total = a.total + b.total;
  notcaught = a.notcaught ++ b.notcaught;
  elsewhere = a.elsewhere ++ b.elsewhere;
}

-- The loop over the shards, from shard `i` on.
unfoldable pub gather : ℕ → List (Option ShardRun) → Gathered
unfolding both shard_part
gather i [] = record {
  broken = [];
  rows = [];
  caught = [];
  total = 0;
  notcaught = [];
  elsewhere = [];
}
gather i (res ∷ out) = both (shard_part i res) (gather (suc i) out)

-- How `main` ends, with what it then prints.
pub data Ending : Type 0 where
  not_a_result : List Broken → Ending
  never_ran : ℕ → Ending
  unmeasured : List Text → Ending
  gap_closed : List Text → Ending
  every_survives : Ending
  reported : Ending

-- The tests behind the loop; `expect` is the flag `--expect-survive`.
unfoldable pub verdict : (expect : Bool) (sent : ℕ) → Gathered → Ending
unfolding is_unmeasured
verdict expect sent g =
    if not (is_nil g.broken)
    then not_a_result g.broken
    else if not (g.total == sent)
    then never_ran g.total
    else if not expect
    then reported
    else if not (is_nil (keep is_unmeasured g.notcaught))
    then unmeasured (keep is_unmeasured g.notcaught)
    else if not (is_nil g.caught)
    then gap_closed g.caught
    else every_survives

unfoldable pub exit_code : Ending → ℕ
exit_code reported = 0
exit_code every_survives = 0
exit_code (not_a_result why) = 1
exit_code (never_ran total) = 1
exit_code (unmeasured rows) = 1
exit_code (gap_closed rows) = 1
