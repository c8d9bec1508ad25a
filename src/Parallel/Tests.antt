-- ===== src/Parallel/Tests.antt =====
-- Two shards of a batch of three rows, with the output that mutate.py prints for each.
use cryptocourt.Base.{all, any, false}
use cryptocourt.Mutate.Verdict.{bad_anchor, timed_out, did_not_build, unclassified, survivor_entry}
use cryptocourt.Base.{none, length}
use mathlib.Core.List.{flat_map}
use cryptocourt.Base.{◌++◌}
use cryptocourt.Base.Text.{newline, Lacks}
use cryptocourt.Parallel.Sections.{IsEntry}
use cryptocourt.Parallel.Printed.{all-Lacks}
use cryptocourt.Base.Decimal.{str_nat}
use cryptocourt.Mutate.Suite.{Row}
use cryptocourt.Mutate.Verdict.{survived, row_line}
use cryptocourt.Mutate.Batch.{Judged, survivors, printed, summary_line}
use cryptocourt.Parallel.Printed.{print_lines, summary-printed}
use cryptocourt.Parallel.Calm.{IsNamed}
use cryptocourt.Parallel.Complete.{shard_of, IsPlain, exit_code-shard_of, gather-survivors}
use cryptocourt.Parallel.Marks.{is_unmeasured-survivor_entry}
use cryptocourt.Base.{◌≡◌, refl, true, false, Option, some, List, [], ◌∷◌, All, arith, leb}
use cryptocourt.Base.Text
use cryptocourt.Mutate.Output
use cryptocourt.Parallel.Report
use cryptocourt.Parallel.Collect
use cryptocourt.Base.Text.{Text, codes}
use cryptocourt.Parallel.Shards.{shards, tally, tally_all, tally-shards}
use cryptocourt.Parallel.Report.{is_unmeasured}
use cryptocourt.Parallel.Collect.{ShardRun, Gathered, gather, verdict, exit_code}
use cryptocourt.Parallel.Collect.Accounted.{
  Accounted, Survives, exit_code-Accounted, exit_code-expect,
}

tally-shards_example :
    tally_all (leb 2) (shards 2 (1 ∷ 2 ∷ 3 ∷ [])) ≡ tally (leb 2) (1 ∷ 2 ∷ 3 ∷ [])
tally-shards_example = tally-shards (leb 2) 2 (1 ∷ 2 ∷ 3 ∷ []) (omega arith)

abbrev first_shard : ShardRun
first_shard = record {
  code = 0;
  stdout =
      codes "flip SURVIVED <<<\n\n1 not caught (survived, invalid, or never applied), of 1\n  flip";
  stderr = [];
}

abbrev second_shard : ShardRun
second_shard = record {
  code = 0;
  stdout = codes "0 not caught (survived, invalid, or never applied), of 0";
  stderr = [];
}

abbrev out : List (Option ShardRun)
out = some first_shard ∷ some second_shard ∷ []

out_zero : exit_code (verdict true 1 (gather 0 out)) ≡ 0
unfolding exit_code verdict gather Collect.both Collect.shard_part Collect.summed_part
    Collect.baseline_breaks Collect.shard_rows Collect.shard_caught Report.summary Report.section
    Report.is_row Report.is_caught_row Report.caught_from Report.find_from Report.indented_block
    is_unmeasured Text.contains Text.starts_with Text.ends_with Text.drop_prefix Text.split
    Text.strip Text.rstrip Text.lstrip Text.is_space codes Output.span Output.is_word
out_zero = refl

exit_code-Accounted_example : Accounted out 1
exit_code-Accounted_example = exit_code-Accounted true 1 out out_zero

exit_code-expect_example : All Survives out
exit_code-expect_example = exit_code-expect 1 out out_zero

is_unmeasured-survivor_entry_example :
    (all is_unmeasured (survivor_entry (codes "flip") (bad_anchor 0)) ≡ true)
    × (all is_unmeasured (survivor_entry (codes "flip") (timed_out [])) ≡ true)
    × (all is_unmeasured (survivor_entry (codes "flip") did_not_build) ≡ true)
    × (any is_unmeasured (survivor_entry (codes "flip") (unclassified [])) ≡ false)
is_unmeasured-survivor_entry_example = is_unmeasured-survivor_entry (codes "flip") 0 [] []

abbrev flip : Row
flip = record {
  file = codes "a.gno";
  label = codes "flip";
  find = codes ">";
  substitute = codes "<=";
  pkg = none;
  elsewhere = [];
}

abbrev judged : List Judged
judged = (flip, survived) ∷ (flip, bad_anchor 2) ∷ []

judged-IsPlain : IsPlain 600 judged
unfolding row_line Report.summary Text.drop_prefix Output.span codes str_nat
judged-IsPlain = (refl, (refl, tt))

summary-printed_example :
    Report.summary (print_lines (printed 600 judged))
    ≡ some (summary_line (length (survivors judged)) 2, 2)
summary-printed_example = summary-printed 600 judged judged-IsPlain

-- A row whose suite reports a code that nobody knows.
abbrev puzzling : List Judged
puzzling = (flip, unclassified (codes "gnoOddError" ∷ [])) ∷ []

puzzling-IsPlain : IsPlain 600 puzzling
unfolding row_line Report.summary Text.drop_prefix Output.span codes str_nat Text.join
puzzling-IsPlain = (refl, tt)

puzzling-IsNamed : All IsNamed puzzling
unfolding Output.is_word codes
puzzling-IsNamed = (
  (
    record {
      stem = codes "gnoOdd";
      written = refl;
      is_stem = (refl, (refl, (refl, (refl, (refl, (refl, tt))))));
    },
    tt,
  ),
  tt,
)

exit_code-shard_of_example :
    exit_code
      (verdict false 3 (gather 0 (some (shard_of 600 judged) ∷ some (shard_of 600 puzzling) ∷ [])))
    ≡ 0
exit_code-shard_of_example =
    exit_code-shard_of 600 3 (judged ∷ puzzling ∷ []) (judged-IsPlain, (puzzling-IsPlain, tt))
      ((tt, (tt, tt)), (puzzling-IsNamed, tt)) refl

judged-IsEntry : All IsEntry (survivors judged)
unfolding survivor_entry codes Text.strip Text.lstrip Text.rstrip Text.is_space str_nat flat_map
judged-IsEntry = (
  record { one_line = all-Lacks newline (codes "flip") refl; stripped = refl; there = λ e. cc e },
  (
    record {
      one_line = all-Lacks newline (codes "flip [bad anchor]") refl;
      stripped = refl;
      there = λ e. cc e;
    },
    tt,
  ),
)

gather-survivors_example :
    (gather 0 (some (shard_of 600 judged) ∷ some (shard_of 600 judged) ∷ [])).notcaught
    ≡ survivors judged ++ survivors judged
unfolding flat_map survivor_entry
gather-survivors_example =
    gather-survivors 0 600 (judged ∷ judged ∷ []) (judged-IsPlain, (judged-IsPlain, tt))
      (judged-IsEntry, (judged-IsEntry, tt))
