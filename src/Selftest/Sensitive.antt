-- ===== src/Selftest/Sensitive.antt =====
-- scripts/selftest-checks.py: arms that leave no failure have fired.
use mathlib.Core.Path.{subst}
use mathlib.Core.Option.{some_inj}
use cryptocourt.Base.{
  ◌≡◌, ap, sym, ◌∙◌, true, Option, none, some, List, [], ◌∷◌, All, inl, inr, ◌==◌, append-eq-nil,
}
use cryptocourt.Base.Tests.{Option-cases, Bool-cases}
use cryptocourt.Base.Text.{Text, codes, count, contains}
use cryptocourt.Selftest.Repo.{Repo, full_path}
use cryptocourt.Selftest.Arms.{
  Run, Control, Verdict, Output, planted, control, complaint, heard, is_fired, command, stdin_of,
  piped, inherited,
}
use cryptocourt.Selftest.Session.{
  planted_corpus, noted, Arm, on_file, on_batch, on_corpus, checked, Session, run_arm, run_arms,
}
use cryptocourt.Selftest.Restored.{
  IsClear, corpus_path, control-once, control-other, control-none, run_arm_restores, inject-eq,
  inject-no_file, inject-no_list,
}

noted-nil : (label : Text) (v : Verdict) → noted label v ≡ [] → is_fired v ≡ true
unfolding noted
noted-nil label v h = elim (Bool-cases (is_fired v)) [ inl e ↦ e | inr e ↦ cc (rw (noted, e) at h) ]

complaint-fires :
    (want : Text) (out : Output)
    → is_fired (complaint want out) ≡ true
    → contains want out.said ≡ true
unfolding complaint is_fired
complaint-fires want out h = elim (Bool-cases (contains want out.said)) [
  | inl e ↦ e
  | inr e ↦ elim (Bool-cases out.passed) [
    | inl f ↦ cc (rw (complaint, e, f) at h)
    | inr f ↦ cc (rw (complaint, e, f) at h)
  ]
]

heard-fires :
    (want : Text) (out : Output) → is_fired (heard want out) ≡ true → contains want out.said ≡ true
unfolding heard is_fired
heard-fires want out h = elim (Bool-cases (contains want out.said)) [
  | inl e ↦ e
  | inr e ↦ cc (rw (heard, e) at h)
]

module _ (run : Run) (root : Text) where
  -- The edit of an arm applies, and its guard says on the edited repository what the arm wants.
  abbrev pub Detects : Repo → Control → Type 0
  Detects repo c =
      (src : Text) × (repo (full_path root c.path) ≡ some src)
      × ((count c.find src == 1) ≡ true)
      × (contains c.want
            (run (command c.argv) (stdin_of c.stdin) c.cwd
              (planted (full_path root c.path) c.find c.substitute src repo)).said
          ≡ true)

  control-Detects :
      (c : Control) (repo : Repo) → is_fired (control run root c repo).0 ≡ true → Detects repo c
  unfolding is_fired
  control-Detects c repo h = elim (Option-cases (repo (full_path root c.path))) [
    | inl e ↦
        cc (ap (λ (v : Verdict × Repo). is_fired v.0) (sym (control-none run root c repo e)) ∙ h)
    | inr (src, e) ↦ elim (Bool-cases (count c.find src == 1)) [
      | inr other ↦ cc (
          ap (λ (v : Verdict × Repo). is_fired v.0)
            (sym (control-other run root c repo src e other))
          ∙ h)
      | inl once ↦ (
        src,
        e,
        once,
        complaint-fires c.want _ (
            ap (λ (v : Verdict × Repo). is_fired v.0)
              (sym (control-once run root c repo src e once))
            ∙ h),
      )
    ]
  ]

module _ (run : Run) (root : Text) (prepended : Text → Text → Option Text) where
  -- What a batch arm and a corpus arm make their script say.
  abbrev pub batch_output : Text → Repo → Output
  batch_output spec repo =
      run (codes "python3" ∷ full_path root (codes "scripts/mutate.py") ∷ []) (piped spec)
        (some (full_path root (codes "realm/r/govern"))) repo

  abbrev pub corpus_output : (text src : Text) → Repo → Output
  corpus_output text src repo =
      run (codes "python3" ∷ codes "scripts/check-mutation-anchors.py" ∷ []) inherited none
        (planted_corpus (corpus_path root) text src repo)

  -- What an arm has to show.
  abbrev pub Fires : Repo → Arm → Type 0
  Fires repo (on_file c) = Detects run root repo c
  Fires repo (on_batch label spec want) = contains want (batch_output spec repo).said ≡ true
  Fires repo (on_corpus label rows want) =
      (src : Text) × (text : Text) × (repo (corpus_path root) ≡ some src)
      × (prepended rows src ≡ some text)
      × (contains want (corpus_output text src repo).said ≡ true)
  Fires repo (checked script label good) = good ≡ true

  arm-Fires :
      (a : Arm) (s s' : Session)
      → run_arm run root prepended a s ≡ some s'
      → s'.failures ≡ []
      → (s.failures ≡ []) × Fires s.repo a
  unfolding run_arm
  arm-Fires (on_file c) s s' h clean =
      let (before, now) =
        append-eq-nil s.failures _ (ap (λ (r : Session). r.failures) (some_inj.0 h) ∙ clean) in
      (before, control-Detects run root c s.repo (noted-nil c.label _ now))
  arm-Fires (on_batch label spec want) s s' h clean =
      let (before, now) =
        append-eq-nil s.failures _ (ap (λ (r : Session). r.failures) (some_inj.0 h) ∙ clean) in
      (before, heard-fires want (batch_output spec s.repo) (noted-nil label _ now))
  arm-Fires (checked script label good) s s' h clean =
      let (before, now) =
        append-eq-nil s.failures _ (ap (λ (r : Session). r.failures) (some_inj.0 h) ∙ clean) in
      (before, elim (Bool-cases good) [ inl e ↦ e | inr e ↦ cc (rw e at now) ])
  arm-Fires (on_corpus label rows want) s s' h clean =
      elim (Option-cases (s.repo (corpus_path root))) [
        | inl e ↦ cc (rw (run_arm, inject-no_file run root prepended rows want s.repo e) at h)
        | inr (src, e) ↦ elim (Option-cases (prepended rows src)) [
          | inl f ↦
              cc (rw (run_arm, inject-no_list run root prepended rows want src s.repo e f) at h)
          | inr (text, f) ↦
              let h' =
                rw (run_arm, inject-eq run root prepended rows want src text s.repo e f) at h in
              let (before, now) =
                append-eq-nil s.failures _
                  (ap (λ (r : Session). r.failures) (some_inj.0 h') ∙ clean) in
              (
                before,
                (
                  src,
                  text,
                  e,
                  f,
                  heard-fires want (corpus_output text src s.repo) (noted-nil label _ now),
                ),
              )
        ]
      ]

  -- Arms after which there is no failure have all fired.
  pub arms-Fire :
      (arms : List Arm) (s s' : Session)
      → All (IsClear root s.repo) arms
      → run_arms run root prepended arms s ≡ some s'
      → s'.failures ≡ []
      → (s.failures ≡ []) × All (Fires s.repo) arms
  unfolding run_arms
  arms-Fire [] s s' clear h clean = (ap (λ (r : Session). r.failures) (some_inj.0 h) ∙ clean, tt)
  arms-Fire (a ∷ arms) s s' (c, clear) h clean =
      elim (Option-cases (run_arm run root prepended a s)) [
        | inl e ↦ cc (rw (run_arms, e) at h)
        | inr (t, e) ↦
            let kept : t.repo ≡ s.repo = run_arm_restores run root prepended a s t c e in
            let (before, fired) =
              arms-Fire arms t s' (rw kept clear) (rw (run_arms, e) at h) clean in
            let (first, fires_now) = arm-Fires a s t e before in
            (first, (fires_now, subst (λ r. All (Fires r) arms) kept fired))
      ]
