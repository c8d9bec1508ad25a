-- ===== src/Parallel/Marks.antt =====
-- scripts/mutate.py and scripts/mutate-parallel.py: the marks of rows that were not measured.
use mathlib.Core.List.{reverse-append}
use cryptocourt.Base.{ℕ, ◌≡◌, refl, true, false, List, all, any}
use cryptocourt.Base.Text.{Text, codes, starts_with, ends_with, drop_prefix}
use cryptocourt.Mutate.Verdict.{bad_anchor, unclassified, timed_out, did_not_build, survivor_entry}
use cryptocourt.Parallel.Report.{is_unmeasured}

-- Whatever the row's label: the entries of a row with a bad anchor, of one that timed out and of one that did not build
-- are recognized as not measured, and the entry of one with an unclassified error code is not.
pub is_unmeasured-survivor_entry :
    (label : Text) (n : ℕ) (hung unknown : List Text)
    → (all is_unmeasured (survivor_entry label (bad_anchor n)) ≡ true)
      × (all is_unmeasured (survivor_entry label (timed_out hung)) ≡ true)
      × (all is_unmeasured (survivor_entry label did_not_build) ≡ true)
      × (any is_unmeasured (survivor_entry label (unclassified unknown)) ≡ false)
unfolding is_unmeasured survivor_entry ends_with starts_with drop_prefix codes
is_unmeasured-survivor_entry label n hung unknown = (
  rw (reverse-append label (codes " [bad anchor]")) refl,
  rw (reverse-append label (codes " [timed out]")) refl,
  rw (reverse-append label (codes " [invalid]")) refl,
  rw (reverse-append label (codes " [unclassified]")) refl,
)
