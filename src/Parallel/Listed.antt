-- ===== src/Parallel/Listed.antt =====
-- scripts/mutate.py and scripts/mutate-parallel.py: the list of the rows not caught that the one prints is read by the
-- other.
use cryptocourt.Base.{
  ℕ, ◌≡◌, ◌≢◌, refl, ap, sym, ◌∙◌, true, false, Option, none, some, List, [], ◌∷◌, ◌++◌, map, All,
  All-append, All-map, length, append_assoc, arith, Option-cases, inl, inr,
}
use cryptocourt.Base.Text.{Text, drop_prefix, starts_with, newline, Lacks}
use cryptocourt.Base.Text.Laws.{drop_prefix_complete, drop_prefix_sound}
use cryptocourt.Base.Decimal.{str_nat, str_nat-All, str_nat-ne-nil, is_digit}
use cryptocourt.Mutate.Output.{span}
use cryptocourt.Mutate.Verdict.{row_line}
use cryptocourt.Mutate.Batch.{
  Judged, survivors, elsewhere, elsewhere_section, printed, summary_line,
}
use cryptocourt.Parallel.Report.{summary, summary_tail, find_from, section}
use cryptocourt.Parallel.Printed.{
  print_lines, match_at, or_else, found_number, span-tail, summary-cons, summary-nil, All-over,
  tail-Lacks,
}
use cryptocourt.Parallel.Sections.{IsEntry, section-report, elsewhere_section-nil}

or_else-none : {A : Type 0} (a b : Option A) → or_else a b ≡ none → (a ≡ none) × (b ≡ none)
or_else-none none b h = (refl, h)
or_else-none (some x) b h = absurd (cc h)

found_number_ne :
    (missed es r : Text) (d : ℕ)
    → is_digit d ≡ true
    → found_number missed (span is_digit (d ∷ (es ++ r))).0 ≢ none
unfolding span
found_number_ne missed es r d h = rw h (λ e. cc e)

match_at-more :
    (c : ℕ) (ds rest : Text)
    → All (λ x. is_digit x ≡ true) (c ∷ ds)
    → match_at c (ds ++ (summary_tail ++ rest)) ≡ found_number (c ∷ ds) (span is_digit rest).0
match_at-more c ds rest h =
    rw (span-tail (c ∷ ds) rest h, h.0, drop_prefix_complete summary_tail rest) refl

-- A text that begins with a summary has one.
summary-begins :
    (ms es r : Text)
    → All (λ x. is_digit x ≡ true) ms
    → All (λ x. is_digit x ≡ true) es
    → ms ≢ []
    → es ≢ []
    → summary (ms ++ (summary_tail ++ (es ++ r))) ≢ none
summary-begins [] es r h k me ne = absurd (me refl)
summary-begins (c ∷ ds) [] r h k me ne = absurd (ne refl)
summary-begins (c ∷ ds) (d ∷ es) r h (k, ks) me ne = λ e.
    let rest : Text = d ∷ (es ++ r) in
    let (here, later) =
      or_else-none (match_at c (ds ++ (summary_tail ++ rest)))
        (summary (ds ++ (summary_tail ++ rest)))
        (sym (summary-cons c (ds ++ (summary_tail ++ rest))) ∙ e) in
    found_number_ne (c ∷ ds) es r d k (sym (match_at-more c ds rest h) ∙ here)

summary_line_begins :
    (missed total : ℕ) (r : Text) → summary (summary_line missed total ++ r) ≢ none
unfolding summary_line
summary_line_begins missed total r = λ e.
    summary-begins (str_nat missed) (str_nat total) r (str_nat-All missed) (str_nat-All total)
      (str_nat-ne-nil missed) (str_nat-ne-nil total)
      (sym (
          ap summary (
            append_assoc (str_nat missed) (summary_tail ++ str_nat total) r
            ∙ ap (λ t. str_nat missed ++ t) (append_assoc summary_tail (str_nat total) r)))
        ∙ e)

starts_with-none :
    (missed total : ℕ) (l : Text)
    → summary l ≡ none
    → starts_with (summary_line missed total) l ≡ false
unfolding starts_with
starts_with-none missed total l h =
    elim (Option-cases (drop_prefix (summary_line missed total) l)) [
      | inl e ↦ rw (e, starts_with) refl
      | inr (r, e) ↦ absurd (
          summary_line_begins missed total r
            (sym (ap summary (drop_prefix_sound (summary_line missed total) l r e)) ∙ h))
    ]

-- A line without a summary does not hold the header.
find_from-summary :
    (missed total : ℕ) (l : Text)
    → summary l ≡ none
    → find_from (summary_line missed total) l ≡ none
unfolding find_from
find_from-summary missed total [] h = rw (starts_with-none missed total [] h) refl
find_from-summary missed total (c ∷ l) h = rw (starts_with-none missed total (c ∷ l) h) (
    find_from-summary missed total l
      (or_else-none (match_at c l) (summary l) (sym (summary-cons c l) ∙ h)).1)

digits-Lacks : (s : Text) → All (λ x. is_digit x ≡ true) s → Lacks newline s
digits-Lacks [] h = tt
digits-Lacks (c ∷ s) (h, hs) = (ground (arith, h), digits-Lacks s hs)

summary_line-Lacks : (missed total : ℕ) → Lacks newline (summary_line missed total)
unfolding summary_line
summary_line-Lacks missed total =
    All-append _ (str_nat missed) (summary_tail ++ str_nat total)
      (digits-Lacks (str_nat missed) (str_nat-All missed))
      (All-append _ summary_tail (str_nat total) tail-Lacks
        (digits-Lacks (str_nat total) (str_nat-All total)))

-- The entries of rows not caught that mutate-parallel.py reads in a shard's output are those that mutate.py prints, if no
-- row's own line holds a summary, and each entry is one line without white space around it.
pub section-survivors :
    (timeout : ℕ) (rows : List Judged)
    → All (λ (j : Judged). summary (row_line timeout j.0.label j.0.elsewhere j.1) ≡ none) rows
    → All IsEntry (survivors rows)
    → section
        (print_lines (printed timeout rows))
        (summary_line (length (survivors rows)) (length rows))
      ≡ survivors rows
unfolding printed
section-survivors timeout rows h k =
    let header : Text = summary_line (length (survivors rows)) (length rows) in
    section-report header (map (λ (j : Judged). row_line timeout j.0.label j.0.elsewhere j.1) rows)
      (survivors rows) (elsewhere_section (elsewhere rows))
      (summary_line-Lacks (length (survivors rows)) (length rows))
      (find_from-summary (length (survivors rows)) (length rows) [] summary-nil)
      (All-map (λ (l : Text) e. find_from-summary (length (survivors rows)) (length rows) l e)
        (map (λ (j : Judged). row_line timeout j.0.label j.0.elsewhere j.1) rows)
        (All-over (λ (j : Judged). row_line timeout j.0.label j.0.elsewhere j.1) rows h))
      k (elsewhere_section-nil (elsewhere rows))
