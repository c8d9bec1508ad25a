-- ===== src/Selftest/Restored.antt =====
-- scripts/selftest-checks.py: every arm puts back what it edited.
use mathlib.Core.Option.{some_inj}
use cryptocourt.Base.{
  ◌≡◌, ap, sym, ◌∙◌, true, false, Option, none, some, List, [], ◌∷◌, All, inl, inr, ◌==◌,
}
use cryptocourt.Base.Tests.{Option-cases, Bool-cases}
use cryptocourt.Base.Text.{Text, codes, count}
use cryptocourt.Selftest.Repo.{Repo, write, move, full_path, backup_of}
use cryptocourt.Selftest.Arms.{
  inherited, heard, Run, Control, Verdict, planted, control, complaint, command, stdin_of,
  no_such_file, anchor_matched,
}
use cryptocourt.Selftest.Session.{
  planted_corpus, inject, Arm, on_file, on_batch, on_corpus, checked, Session, run_arm, run_arms,
}
use cryptocourt.Selftest.Moved.{edited-back, copied-back}

module _ (run : Run) (root : Text) where
  -- What an arm says where its file is there and its anchor is found once.
  pub control-once :
      (c : Control) (repo : Repo) (src : Text)
      → repo (full_path root c.path) ≡ some src
      → (count c.find src == 1) ≡ true
      → control run root c repo ≡ (
        complaint c.want (
            run
              (command c.argv)
              (stdin_of c.stdin)
              c.cwd
              (planted (full_path root c.path) c.find c.substitute src repo)),
        move
            (backup_of (full_path root c.path))
            (full_path root c.path)
            (planted (full_path root c.path) c.find c.substitute src repo),
      )
  unfolding control
  control-once c repo src h once = rw (control, h, once)

  pub control-other :
      (c : Control) (repo : Repo) (src : Text)
      → repo (full_path root c.path) ≡ some src
      → (count c.find src == 1) ≡ false
      → control run root c repo ≡ (
        anchor_matched (count c.find src),
        move
            (backup_of (full_path root c.path))
            (full_path root c.path)
            (write (backup_of (full_path root c.path)) src repo),
      )
  unfolding control
  control-other c repo src h other = rw (control, h, other)

  pub control-none :
      (c : Control) (repo : Repo)
      → repo (full_path root c.path) ≡ none
      → control run root c repo ≡ (no_such_file, repo)
  unfolding control
  control-none c repo h = rw (control, h)

  -- `control` leaves the repository as it found it.
  pub control_restores :
      (c : Control) (repo : Repo)
      → repo (backup_of (full_path root c.path)) ≡ none
      → (control run root c repo).1 ≡ repo
  unfolding planted
  control_restores c repo free = elim (Option-cases (repo (full_path root c.path))) [
    | inl e ↦ ap (λ (v : Verdict × Repo). v.1) (control-none c repo e)
    | inr (src, e) ↦ elim (Bool-cases (count c.find src == 1)) [
      | inl once ↦
          ap (λ (v : Verdict × Repo). v.1) (control-once c repo src e once)
          ∙ edited-back (full_path root c.path) _ src repo e free
      | inr other ↦
          ap (λ (v : Verdict × Repo). v.1) (control-other c repo src e other)
          ∙ copied-back (full_path root c.path) src repo e free
    ]
  ]

abbrev pub corpus_path : Text → Text
corpus_path root = full_path root (codes "scripts/mutations-kourtv2.json")

-- Whether no file stands where an arm puts its copy.
abbrev pub IsClear : Text → Repo → Arm → Type 0
IsClear root repo (on_file c) = repo (backup_of (full_path root c.path)) ≡ none
IsClear root repo (on_batch label spec want) = Unit
IsClear root repo (on_corpus label rows want) = repo (backup_of (corpus_path root)) ≡ none
IsClear root repo (checked script label good) = Unit

module _ (run : Run) (root : Text) (prepended : Text → Text → Option Text) where
  pub inject-eq :
      (rows want src text : Text) (repo : Repo)
      → repo (corpus_path root) ≡ some src
      → prepended rows src ≡ some text
      → inject run root prepended rows want repo
        ≡ some (
          heard want (
              run
                (codes "python3" ∷ codes "scripts/check-mutation-anchors.py" ∷ [])
                inherited
                none
                (planted_corpus (corpus_path root) text src repo)),
          move
              (backup_of (corpus_path root))
              (corpus_path root)
              (planted_corpus (corpus_path root) text src repo),
        )
  unfolding inject
  inject-eq rows want src text repo h e = rw (inject, h, e)

  pub inject-no_file :
      (rows want : Text) (repo : Repo)
      → repo (corpus_path root) ≡ none
      → inject run root prepended rows want repo ≡ none
  unfolding inject
  inject-no_file rows want repo h = rw (inject, h)

  pub inject-no_list :
      (rows want src : Text) (repo : Repo)
      → repo (corpus_path root) ≡ some src
      → prepended rows src ≡ none
      → inject run root prepended rows want repo ≡ none
  unfolding inject
  inject-no_list rows want src repo h e = rw (inject, h, e)

  inject_restores :
      (rows want : Text) (repo : Repo) (v : Verdict × Repo)
      → repo (backup_of (corpus_path root)) ≡ none
      → inject run root prepended rows want repo ≡ some v
      → v.1 ≡ repo
  unfolding planted_corpus
  inject_restores rows want repo v free h = elim (Option-cases (repo (corpus_path root))) [
    | inl e ↦ cc (h, inject-no_file rows want repo e)
    | inr (src, e) ↦ elim (Option-cases (prepended rows src)) [
      | inl f ↦ cc (h, inject-no_list rows want src repo e f)
      | inr (text, f) ↦
          ap (λ (w : Verdict × Repo). w.1)
            (some_inj.0 (sym h ∙ inject-eq rows want src text repo e f))
          ∙ edited-back (corpus_path root) text src repo e free
    ]
  ]

  pub run_arm_restores :
      (a : Arm) (s s' : Session)
      → IsClear root s.repo a
      → run_arm run root prepended a s ≡ some s'
      → s'.repo ≡ s.repo
  unfolding run_arm
  run_arm_restores (on_file c) s s' free h =
      ap (λ (r : Session). r.repo) (sym (some_inj.0 h)) ∙ control_restores run root c s.repo free
  run_arm_restores (on_batch label spec want) s s' free h =
      ap (λ (r : Session). r.repo) (sym (some_inj.0 h))
  run_arm_restores (checked script label good) s s' free h =
      ap (λ (r : Session). r.repo) (sym (some_inj.0 h))
  run_arm_restores (on_corpus label rows want) s s' free h =
      elim (Option-cases (inject run root prepended rows want s.repo)) [
        | inl e ↦ cc (rw (run_arm, e) at h)
        | inr (v, e) ↦
            ap (λ (r : Session). r.repo) (sym (some_inj.0 (rw (run_arm, e) at h)))
            ∙ inject_restores rows want s.repo v free e
      ]

  pub run_arms_restores :
      (arms : List Arm) (s s' : Session)
      → All (IsClear root s.repo) arms
      → run_arms run root prepended arms s ≡ some s'
      → s'.repo ≡ s.repo
  unfolding run_arms
  run_arms_restores [] s s' clear h = ap (λ (r : Session). r.repo) (sym (some_inj.0 h))
  run_arms_restores (a ∷ arms) s s' (c, clear) h =
      elim (Option-cases (run_arm run root prepended a s)) [
        | inl e ↦ cc (rw (run_arms, e) at h)
        | inr (t, e) ↦
            let kept : t.repo ≡ s.repo = run_arm_restores a s t c e in
            run_arms_restores arms t s' (rw kept clear) (rw (run_arms, e) at h) ∙ kept
      ]
