-- ===== src/Packages/Table.antt =====
-- scripts/genesis-pkgs.py: what one step of the loop leaves staged.
use cryptocourt.Base.{
  ◌≡◌, inl, inr, refl, ap, sym, ◌∙◌, Bool, true, false, ◌||◌, Option, none, some, List, [], ◌∷◌,
  ||-eq-false, arith, Bool-cases,
}
use cryptocourt.Base.Text.{Text, codes, replace, ◌=text◌, text_in}
use cryptocourt.Base.Text.Laws.{=text_sound}
use cryptocourt.Base.Disk.{Files, Disk, write_dir, is_under}
use cryptocourt.Base.Closure.{Marks, successors}
use cryptocourt.Base.Closure.Laws.{text_in-cons}
use cryptocourt.Base.Paths.{is_under-below}
use cryptocourt.Packages.{
  prod_files, put_all, imports_of, found_dir, staged_dir, stage, Progress, is_seen, settle_found,
  settle,
}

module _ (repo gnoroot staging : Text) (is_dir : Text → Bool) where
  pub is_seen-settle_found :
      (m u : Text) (s : Progress) (o : Option Text)
      → is_seen (settle_found repo gnoroot staging is_dir m s o) u ≡ ((u =text m) || is_seen s u)
  unfolding is_seen
  is_seen-settle_found m u s none = ground (arith, text_in-cons u m s.missing)
  is_seen-settle_found m u s (some src) = ground (arith, text_in-cons u m s.finished)

  -- What is done or missing, as the marks of a worklist.
  unfoldable pub seen_marks : Marks Progress
  unfolding settle
  seen_marks = record {
    is_marked = is_seen;
    mark = settle repo gnoroot staging is_dir;
    is_marked-mark = λ s t u. is_seen-settle_found t u s (found_dir repo gnoroot staging is_dir t);
  }

  -- What a module imports without its tests; nothing, where it has no source.
  unfoldable pub needs : Disk → Text → List Text
  needs disk m = elim (found_dir repo gnoroot staging is_dir m) [
    | none ↦ []
    | some src ↦ imports_of (put_all (prod_files (disk src)) [])
  ]

  -- The imports of the modules of a list.
  abbrev pub needs_table : Disk → List Text → List (Text × List Text)
  needs_table disk [] = []
  needs_table disk (m ∷ ms) = (m, needs disk m) ∷ needs_table disk ms

  pub successors-needs :
      (disk : Disk) (m : Text) (ms : List Text)
      → text_in m ms ≡ true
      → successors (needs_table disk ms) m ≡ needs disk m
  unfolding successors text_in
  successors-needs disk m [] h = cc h
  successors-needs disk m (n ∷ ms) h = elim (Bool-cases (m =text n)) [
    | inl e ↦ rw e (ap (needs disk) (sym (=text_sound m n e)))
    | inr e ↦ rw e (successors-needs disk m ms (rw e at h))
  ]

  -- A list of modules that holds what its members import, whose sources are outside the staging directory, and
  -- whose names give different directories there.
  pub record Covers (disk : Disk) (ms : List Text) : Type 0 where
    pub closed :
        (m u : Text) → text_in m ms ≡ true → text_in u (needs disk m) ≡ true → text_in u ms ≡ true
    pub outside :
        (m src : Text)
        → text_in m ms ≡ true
        → found_dir repo gnoroot staging is_dir m ≡ some src
        → is_under staging src ≡ false
    pub apart :
        (m u : Text)
        → text_in m ms ≡ true
        → text_in u ms ≡ true
        → staged_dir repo gnoroot staging is_dir m ≡ staged_dir repo gnoroot staging is_dir u
        → m ≡ u

  pub staged_dir_under :
      (m : Text) → is_under staging (staged_dir repo gnoroot staging is_dir m) ≡ true
  unfolding staged_dir
  staged_dir_under m = is_under-below staging (replace (codes "/") (codes "_") m)

  pub write_dir_other :
      (d p : Text) (files : Files) (disk : Disk)
      → (p =text d) ≡ false
      → write_dir d files disk p ≡ disk p
  unfolding write_dir
  write_dir_other d p files disk h = rw h refl

  pub stage_other :
      (m src p : Text) (disk : Disk)
      → (p =text staged_dir repo gnoroot staging is_dir m) ≡ false
      → stage repo gnoroot staging is_dir m src disk p ≡ disk p
  unfolding stage
  stage_other m src p disk h = write_dir_other (staged_dir repo gnoroot staging is_dir m) p _ disk h

  pub unseen :
      (m u : Text) (s : Progress) (o : Option Text)
      → is_seen (settle_found repo gnoroot staging is_dir m s o) u ≡ false
      → ((u =text m) ≡ false) × (is_seen s u ≡ false)
  unseen m u s o h = ||-eq-false _ _ (sym (is_seen-settle_found m u s o) ∙ h)

  -- The staging directory holds of a module what is copied of its source, and nothing else.
  pub record IsCopied (disk : Disk) (m : Text) (now : Disk) : Type 0 where
    pub src : Text
    pub found : found_dir repo gnoroot staging is_dir m ≡ some src
    pub holds : now (staged_dir repo gnoroot staging is_dir m) ≡ put_all (prod_files (disk src)) []

  pub IsCopied-stage :
      (m src u : Text) {disk : Disk} (now : Disk)
      → (staged_dir repo gnoroot staging is_dir u =text staged_dir repo gnoroot staging is_dir m)
        ≡ false
      → IsCopied disk u now
      → IsCopied disk u (stage repo gnoroot staging is_dir m src now)
  IsCopied-stage m src u now h c = record {
    src = c.src;
    found = c.found;
    holds = stage_other m src (staged_dir repo gnoroot staging is_dir u) now h ∙ c.holds;
  }
