-- ===== src/Corpus/Guard/Healthy.antt =====
-- What the corpora are when scripts/check-mutation-anchors.py exits with 0.
use cryptocourt.Base.{
  ◌+◌, ◌≡◌, ◌≢◌, ◌↔◌, inl, inr, refl, ap, sym, ◌∙◌, Bool, true, false, not, ◌&&◌, List, [], ◌∷◌,
  ◌++◌, map, All, length, length-map, length-append, append-nil, append_assoc, arith, Bool-cases,
}
use cryptocourt.Base.Text.{Text, ◌=text◌, text_in, codes}
use cryptocourt.Mutate.Output.{sorted_set}
use cryptocourt.Base.Groups.{are_distinct}
use cryptocourt.Mutate.Verdict.{is_nil}
use cryptocourt.Corpus.Makefile.{Routine}
use cryptocourt.Corpus.Rows.{
  Entry, Resolved, Placed, row_verdicts, cross_verdicts, same_key, mutations, labels,
}
use cryptocourt.Corpus.Rows.Sound.{IsSound, row_verdicts-nil}
use cryptocourt.Corpus.Rows.Apart.{cross_verdicts-nil}
use cryptocourt.Corpus.Guard.{
  blind, is_allowed_empty, CorpusFile, unreadable, not_list, items, Tally, nothing_yet, guard_exit,
  visit, visit_all, all_problems, judge_tally, check_corpora, check_anchors,
}

-- The items of all corpora, each with the name of its file.
abbrev items_of : Text → CorpusFile → List Placed
items_of rel unreadable = []
items_of rel not_list = []
items_of rel (items rows) = map (λ (r : Entry). (rel, r)) rows

abbrev pub placed : List (Text × CorpusFile) → List Placed
placed [] = []
placed ((rel, f) ∷ files) = items_of rel f ++ placed files

length-nil : {A : Type 0} (xs : List A) → (length xs ≡ 0) ↔ (xs ≡ [])
length-nil [] = (λ h. refl, λ h. refl)
length-nil (x ∷ xs) = (λ h. absurd (omega arith), λ h. absurd (cc h))

true_ne_false : ◌≢◌ {A = Bool} true false
true_ne_false e = cc e

all_problems-nil :
    (t : Tally)
    → (all_problems t ≡ 0) ↔ ((t.bad ≡ 0) × ((cross_verdicts t.pairs ≡ []) × (t.total ≢ 0)))
unfolding all_problems
all_problems-nil t = (
  λ h.
      let few : length (cross_verdicts t.pairs) ≡ 0 = omega (arith, h) in
      (omega (arith, h), ((length-nil (cross_verdicts t.pairs)).0 few, λ e. ground (arith, h, e))),
  λ (b, (c, n)). let few = (length-nil (cross_verdicts t.pairs)).1 c in ground (arith, b, few, n),
)

judge_tally-clean : (t : Tally) → (guard_exit (judge_tally t) ≡ 0) ↔ (all_problems t ≡ 0)
unfolding guard_exit
judge_tally-clean t = ground arith

module _ (exists : Text → Bool) (routine : Text → Routine) (resolve : Text → Text → Resolved) where
  -- A corpus file that holds a list of sound rows, and an empty one only if it is allowed to.
  pub data IsHealthy (rel : Text) : CorpusFile → Type 0 where
    is_healthy :
        (rows : List Entry)
        → (is_nil rows && not (is_allowed_empty rel)) ≡ false
        → All (IsSound exists routine resolve) rows
        → IsHealthy rel (items rows)

  IsHealthy-items :
      {rel : Text} {rows : List Entry}
      → IsHealthy rel (items rows)
      → ((is_nil rows && not (is_allowed_empty rel)) ≡ false)
        × All (IsSound exists routine resolve) rows
  IsHealthy-items (is_healthy rows e h) = (e, h)

  visit-bad :
      (rel : Text) (f : CorpusFile) (t : Tally)
      → ((visit exists routine resolve rel f t).bad ≡ 0) ↔ ((t.bad ≡ 0) × IsHealthy rel f)
  unfolding visit
  visit-bad rel unreadable t = (λ h. absurd (omega arith), λ (h, x). elim x [ ])
  visit-bad rel not_list t = (λ h. absurd (omega arith), λ (h, x). elim x [ ])
  visit-bad rel (items rows) t = elim (Bool-cases (is_nil rows && not (is_allowed_empty rel))) [
    | inl e ↦ (
      λ h. absurd (omega (arith, rw (e, visit) at h)),
      λ (h, x). absurd (true_ne_false (sym e ∙ (IsHealthy-items x).0)),
    )
    | inr e ↦ (
      λ h.
          let sum = rw (e, visit) at h in
          let none_bad : length (row_verdicts exists routine resolve rows) ≡ 0 =
            omega (arith, sum) in
          (
            omega (arith, sum),
            is_healthy rows e (
                (row_verdicts-nil exists routine resolve rows).0
                  ((length-nil (row_verdicts exists routine resolve rows)).0 none_bad)),
          ),
      λ (h, x).
          let sound = (row_verdicts-nil exists routine resolve rows).1 (IsHealthy-items x).1 in
          rw (e, visit, sound) (omega (arith, h)),
    )
  ]

  visit-placed :
      (rel : Text) (f : CorpusFile) (t : Tally)
      → ((visit exists routine resolve rel f t).pairs ≡ t.pairs ++ items_of rel f)
        × ((visit exists routine resolve rel f t).total ≡ t.total + length (items_of rel f))
  unfolding visit
  visit-placed rel unreadable t = (sym (append-nil t.pairs), omega arith)
  visit-placed rel not_list t = (sym (append-nil t.pairs), omega arith)
  visit-placed rel (items []) t = elim (Bool-cases (is_allowed_empty rel)) [
    | inl e ↦ rw e (refl, refl)
    | inr e ↦ rw e (sym (append-nil t.pairs), omega arith)
  ]
  visit-placed rel (items (r ∷ rows)) t =
      (refl, omega (arith, length-map {B = Placed} (λ (x : Entry). (rel, x)) rows))

  visit_all-placed :
      (files : List (Text × CorpusFile)) (t : Tally)
      → ((visit_all exists routine resolve files t).pairs ≡ t.pairs ++ placed files)
        × ((visit_all exists routine resolve files t).total ≡ t.total + length (placed files))
  unfolding visit_all
  visit_all-placed [] t = (sym (append-nil t.pairs), omega arith)
  visit_all-placed ((rel, f) ∷ files) t =
      let (here, now) = visit-placed rel f t in
      let (there, later) = visit_all-placed files (visit exists routine resolve rel f t) in
      (
        there
            ∙ ap (λ ps. ps ++ placed files) here
            ∙ append_assoc t.pairs (items_of rel f) (placed files),
        omega (arith, now, later, length-append (items_of rel f) (placed files)),
      )

  visit_all-bad :
      (files : List (Text × CorpusFile)) (t : Tally)
      → ((visit_all exists routine resolve files t).bad ≡ 0)
        ↔ ((t.bad ≡ 0) × All (λ (x : Text × CorpusFile). IsHealthy x.0 x.1) files)
  unfolding visit_all
  visit_all-bad [] t = (λ h. (h, tt), λ (h, x). h)
  visit_all-bad ((rel, f) ∷ files) t = (
    λ h.
        let (here, later) = (visit_all-bad files (visit exists routine resolve rel f t)).0 h in
        let (before, now) = (visit-bad rel f t).0 here in (before, (now, later)),
    λ (before, (now, later)).
        (visit_all-bad files (visit exists routine resolve rel f t)).1
          ((visit-bad rel f t).1 (before, now), later),
  )

  -- What the guard asks of all corpora together.
  pub record AreHealthy (files : List (Text × CorpusFile)) : Type 0 where
    pub each : All (λ (x : Text × CorpusFile). IsHealthy x.0 x.1) files
    pub some_row : placed files ≢ []
    pub one_mutation : are_distinct same_key (mutations (placed files)) ≡ true
    pub one_label : are_distinct ◌=text◌ (labels (placed files)) ≡ true

  nothing_visited :
      (files : List (Text × CorpusFile))
      → (all_problems (visit_all exists routine resolve files nothing_yet) ≡ 0) ↔ AreHealthy files
  nothing_visited files =
      let t : Tally = visit_all exists routine resolve files nothing_yet in
      let (pairs, total) = visit_all-placed files nothing_yet in
      (
        λ h.
            let (b, (c, n)) = (all_problems-nil t).0 h in
            let (once, one) = (cross_verdicts-nil (placed files)).0 (rw (← pairs) c) in
            record {
              each = ((visit_all-bad files nothing_yet).0 b).1;
              some_row = λ e. n (omega (arith, total, (length-nil (placed files)).1 e));
              one_mutation = once;
              one_label = one;
            },
        λ x.
            let apart = (cross_verdicts-nil (placed files)).1 (x.one_mutation, x.one_label) in
            (all_problems-nil t).1 (
              (visit_all-bad files nothing_yet).1 (refl, x.each),
              (
                rw pairs apart,
                λ e. x.some_row ((length-nil (placed files)).0 (omega (arith, total, e))),
              ),
            ),
      )

  AreHealthy-cons : ¬ AreHealthy []
  AreHealthy-cons x = x.some_row refl

  no_blind :
      (files : List (Text × CorpusFile))
      → check_anchors exists routine resolve files ≡ check_corpora exists routine resolve files
  unfolding check_anchors blind sorted_set text_in ◌=text◌ codes
  no_blind files = refl

  check_corpora-clean :
      (files : List (Text × CorpusFile))
      → (guard_exit (check_corpora exists routine resolve files) ≡ 0) ↔ AreHealthy files
  unfolding guard_exit
  check_corpora-clean [] = (λ h. absurd (omega (arith, h)), λ x. absurd (AreHealthy-cons x))
  check_corpora-clean (f ∷ files) =
      let t : Tally = visit_all exists routine resolve (f ∷ files) nothing_yet in
      let (a, b) = judge_tally-clean t in
      let (c, d) = nothing_visited (f ∷ files) in (λ h. c (a h), λ x. b (d x))

  -- The guard, behind its own fixtures, exits with 0 exactly if every corpus file holds a list of sound rows,
  -- which is empty at most where that is allowed, there is some row, and no two rows of all files are the same
  -- mutation or have the same label.
  pub check_anchors-AreHealthy :
      (files : List (Text × CorpusFile))
      → (guard_exit (check_anchors exists routine resolve files) ≡ 0) ↔ AreHealthy files
  check_anchors-AreHealthy files = rw (no_blind files) (check_corpora-clean files)
