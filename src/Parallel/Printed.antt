-- ===== src/Parallel/Printed.antt =====
-- scripts/mutate.py and scripts/mutate-parallel.py: the summary that the one prints is read by the other.
use cryptocourt.Base.{
  ℕ, ◌≡◌, ◌≢◌, refl, ap, sym, ◌∙◌, true, false, Option, none, some, List, [], ◌∷◌, ◌++◌, map, All,
  all, not, length, append_assoc, arith, ◌==◌, if◌then◌else◌, Bool-cases, inl, inr,
}
use cryptocourt.Base.Text.{Text, codes, drop_prefix, newline, Lacks}
use cryptocourt.Base.Text.Laws.{drop_prefix_complete}
use cryptocourt.Base.Decimal.{str_nat, str_nat-All, str_nat-ne-nil, value, value-str_nat, is_digit}
use cryptocourt.Mutate.Output.{span}
use cryptocourt.Mutate.Verdict.{row_line}
use cryptocourt.Mutate.Batch.{Judged, survivors, printed, summary_line}
use cryptocourt.Parallel.Report.{summary, summary_tail}

-- What is on standard output: each line with its line break.
abbrev pub print_lines : List Text → Text
print_lines [] = []
print_lines (line ∷ lines) = line ++ newline ∷ print_lines lines

span-append :
    (s t : Text)
    → span is_digit (s ++ newline ∷ t) ≡ ((span is_digit s).0, (span is_digit s).1 ++ newline ∷ t)
unfolding span
span-append [] t = refl
span-append (c ∷ s) t = elim (Bool-cases (is_digit c)) [
  | inl e ↦ rw (e, span-append s t) refl
  | inr e ↦ rw e refl
]

-- The rest behind a prefix without a line break.
abbrev pub extend : Text → Option Text → Option Text
extend t none = none
extend t (some rest) = some (rest ++ newline ∷ t)

pub drop_prefix-line :
    (p s t : Text) → Lacks newline p → drop_prefix p (s ++ newline ∷ t) ≡ extend t (drop_prefix p s)
unfolding drop_prefix
drop_prefix-line [] s t h = refl
drop_prefix-line (x ∷ p) [] t (h, hs) = rw h refl
drop_prefix-line (x ∷ p) (c ∷ s) t (h, hs) = elim (Bool-cases (x == c)) [
  | inl e ↦ rw e (drop_prefix-line p s t hs)
  | inr e ↦ rw e refl
]

pub all-Lacks : (c : ℕ) (s : Text) → all (λ x. not (x == c)) s ≡ true → Lacks c s
all-Lacks c [] h = tt
all-Lacks c (x ∷ s) h = (ground (arith, h), all-Lacks c s (ground (arith, h)))

pub tail-Lacks : Lacks newline summary_tail
unfolding codes
tail-Lacks = all-Lacks newline summary_tail refl

abbrev pub or_else : {A : Type 0} → Option A → Option A → Option A
or_else none o = o
or_else (some a) o = some a

or_else_assoc : {A : Type 0} (a b c : Option A) → or_else a (or_else b c) ≡ or_else (or_else a b) c
or_else_assoc none b c = refl
or_else_assoc (some a) b c = refl

abbrev pub found_number : Text → Text → Option (Text × ℕ)
found_number missed [] = none
found_number missed (d ∷ ds) = some (missed ++ (summary_tail ++ d ∷ ds), value 0 (d ∷ ds))

abbrev pub found_tail : Text → Option Text → Option (Text × ℕ)
found_tail missed none = none
found_tail missed (some rest) = found_number missed (span is_digit rest).0

-- A match that begins at the head.
abbrev pub match_at : ℕ → Text → Option (Text × ℕ)
match_at c s =
    let run = span is_digit (c ∷ s) in
    found_tail run.0 (if is_digit c then drop_prefix summary_tail run.1 else none)

chain :
    (missed : Text) (o : Option Text) (later : Option (Text × ℕ))
    → (elim o [
      | none ↦ later
      | some rest ↦ elim (span is_digit rest).0 [
        | [] ↦ later
        | d ∷ ds ↦ some (missed ++ (summary_tail ++ d ∷ ds), value 0 (d ∷ ds))
      ]
    ])
      ≡ or_else (found_tail missed o) later
chain missed none later = refl
chain missed (some rest) later = number (span is_digit rest).0
  where
    number :
        (ds : Text)
        → (elim ds [
          | [] ↦ later
          | d ∷ ds ↦ some (missed ++ (summary_tail ++ d ∷ ds), value 0 (d ∷ ds))
        ])
          ≡ or_else (found_number missed ds) later
    number [] = refl
    number (d ∷ ds) = refl

pub summary-cons : (c : ℕ) (s : Text) → summary (c ∷ s) ≡ or_else (match_at c s) (summary s)
unfolding summary
summary-cons c s =
    chain (span is_digit (c ∷ s)).0
      (if is_digit c then drop_prefix summary_tail (span is_digit (c ∷ s)).1 else none) (summary s)

found_tail-extend :
    (missed t : Text) (o : Option Text) → found_tail missed (extend t o) ≡ found_tail missed o
found_tail-extend missed t none = refl
found_tail-extend missed t (some rest) = rw (span-append rest t) refl

match_at-line : (c : ℕ) (s t : Text) → match_at c (s ++ newline ∷ t) ≡ match_at c s
match_at-line c s t = elim (Bool-cases (is_digit c)) [
  | inl e ↦
      rw
        (
          span-append (c ∷ s) t,
          e,
          drop_prefix-line summary_tail (span is_digit (c ∷ s)).1 t tail-Lacks,
        )
        (found_tail-extend (span is_digit (c ∷ s)).0 t
          (drop_prefix summary_tail (span is_digit (c ∷ s)).1))
  | inr e ↦ rw e refl
]

summary-line : (s t : Text) → summary (s ++ newline ∷ t) ≡ or_else (summary s) (summary t)
summary-line [] t = unfold summary in refl
summary-line (c ∷ s) t =
    summary-cons c (s ++ newline ∷ t)
    ∙ ap (λ o. or_else o (summary (s ++ newline ∷ t))) (match_at-line c s t)
    ∙ ap (or_else (match_at c s)) (summary-line s t)
    ∙ or_else_assoc (match_at c s) (summary s) (summary t)
    ∙ ap (λ o. or_else o (summary t)) (sym (summary-cons c s))

-- Lines without a match are passed over.
summary-lines :
    (lines : List Text) (rest : Text)
    → All (λ (l : Text). summary l ≡ none) lines
    → summary (print_lines lines ++ rest) ≡ summary rest
summary-lines [] rest h = refl
summary-lines (l ∷ lines) rest (h, hs) =
    ap summary (append_assoc l (newline ∷ print_lines lines) rest)
    ∙ summary-line l (print_lines lines ++ rest)
    ∙ ap (λ o. or_else o (summary (print_lines lines ++ rest))) h
    ∙ summary-lines lines rest hs

pub span-digits :
    (s t : Text) (c : ℕ)
    → All (λ x. is_digit x ≡ true) s
    → is_digit c ≡ false
    → span is_digit (s ++ c ∷ t) ≡ (s, c ∷ t)
unfolding span
span-digits [] t c h e = rw e refl
span-digits (x ∷ s) t c (h, hs) e = rw (h, span-digits s t c hs e) refl

pub span-All : (s : Text) → All (λ x. is_digit x ≡ true) s → span is_digit s ≡ (s, [])
unfolding span
span-All [] h = refl
span-All (x ∷ s) (h, hs) = rw (h, span-All s hs) refl

pub span-tail :
    (s es : Text)
    → All (λ x. is_digit x ≡ true) s
    → span is_digit (s ++ (summary_tail ++ es)) ≡ (s, summary_tail ++ es)
unfolding codes
span-tail s es h = span-digits s _ b' ' h refl

found_number-digits :
    (missed es : Text)
    → es ≢ []
    → found_number missed es ≡ some (missed ++ (summary_tail ++ es), value 0 es)
found_number-digits missed [] ne = absurd (ne refl)
found_number-digits missed (d ∷ ds) ne = refl

-- The summary of two numbers, read back.
pub match_at-numbers :
    (c : ℕ) (ds es : Text)
    → All (λ x. is_digit x ≡ true) (c ∷ ds)
    → All (λ x. is_digit x ≡ true) es
    → es ≢ []
    → match_at c (ds ++ (summary_tail ++ es)) ≡ some ((c ∷ ds) ++ (summary_tail ++ es), value 0 es)
match_at-numbers c ds es h k ne =
    rw (span-tail (c ∷ ds) es h, h.0, drop_prefix_complete summary_tail es, span-All es k)
      (found_number-digits (c ∷ ds) es ne)

summary-numbers :
    (ms es : Text)
    → All (λ x. is_digit x ≡ true) ms
    → All (λ x. is_digit x ≡ true) es
    → ms ≢ []
    → es ≢ []
    → summary (ms ++ (summary_tail ++ es)) ≡ some (ms ++ (summary_tail ++ es), value 0 es)
summary-numbers [] es h k me ne = absurd (me refl)
summary-numbers (c ∷ ds) es h k me ne =
    summary-cons c (ds ++ (summary_tail ++ es))
    ∙ ap (λ o. or_else o (summary (ds ++ (summary_tail ++ es)))) (match_at-numbers c ds es h k ne)

summary-summary_line :
    (missed total : ℕ)
    → summary (summary_line missed total) ≡ some (summary_line missed total, total)
unfolding summary_line
summary-summary_line missed total =
    summary-numbers (str_nat missed) (str_nat total) (str_nat-All missed) (str_nat-All total)
      (str_nat-ne-nil missed) (str_nat-ne-nil total)
    ∙ ap (λ n. some (summary_line missed total, n)) (value-str_nat total)

pub print_lines-append :
    (xs ys : List Text) → print_lines (xs ++ ys) ≡ print_lines xs ++ print_lines ys
print_lines-append [] ys = refl
print_lines-append (x ∷ xs) ys =
    ap (λ t. x ++ newline ∷ t) (print_lines-append xs ys)
    ∙ sym (append_assoc x (newline ∷ print_lines xs) (print_lines ys))

pub summary-nil : summary [] ≡ none
unfolding summary
summary-nil = refl

summary-report :
    (lines rest : List Text) (missed total : ℕ)
    → All (λ (l : Text). summary l ≡ none) lines
    → summary (print_lines (lines ++ [] ∷ summary_line missed total ∷ rest))
      ≡ some (summary_line missed total, total)
summary-report lines rest missed total h =
    ap summary (print_lines-append lines ([] ∷ summary_line missed total ∷ rest))
    ∙ summary-lines lines (print_lines ([] ∷ summary_line missed total ∷ rest)) h
    ∙ summary-line [] (summary_line missed total ++ newline ∷ print_lines rest)
    ∙ ap (λ o. or_else o (summary (summary_line missed total ++ newline ∷ print_lines rest)))
        summary-nil
    ∙ summary-line (summary_line missed total) (print_lines rest)
    ∙ ap (λ o. or_else o (summary (print_lines rest))) (summary-summary_line missed total)

pub All-over :
    {A : Type 0} (f : A → Text) (xs : List A)
    → All (λ (x : A). summary (f x) ≡ none) xs
    → All (λ (l : Text). summary l ≡ none) (map f xs)
All-over f [] h = tt
All-over f (x ∷ xs) (h, hs) = (h, All-over f xs hs)

-- What mutate-parallel.py reads as the summary of a shard is the line that mutate.py prints, and the number that it adds
-- up is that of the shard's rows, if no row's own line holds such a summary.
pub summary-printed :
    (timeout : ℕ) (rows : List Judged)
    → All (λ (j : Judged). summary (row_line timeout j.0.label j.0.elsewhere j.1) ≡ none) rows
    → summary (print_lines (printed timeout rows))
      ≡ some (summary_line (length (survivors rows)) (length rows), length rows)
unfolding printed
summary-printed timeout rows h =
    summary-report (map (λ (j : Judged). row_line timeout j.0.label j.0.elsewhere j.1) rows) _
      (length (survivors rows)) (length rows)
      (All-over (λ (j : Judged). row_line timeout j.0.label j.0.elsewhere j.1) rows h)
