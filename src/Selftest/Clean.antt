-- ===== src/Selftest/Clean.antt =====
-- scripts/selftest-checks.py: a run that ends with 0.
use mathlib.Core.Path.{subst}
use mathlib.Core.Option.{some_inj}
use cryptocourt.Base.{
  map-eq-nil, ◌≡◌, refl, ap, sym, ◌∙◌, Bool, true, false, not, Option, some, List, [], ◌∷◌, keep,
  any, All, inl, inr, All-map, append-eq-nil,
}
use cryptocourt.Base.Tests.{Option-cases, Bool-cases}
use cryptocourt.Base.Text.{Text, codes, text_in}
use cryptocourt.Selftest.Repo.{Repo}
use cryptocourt.Selftest.Arms.{Run}
use cryptocourt.Selftest.Session.{Arm, Session, run_arms}
use cryptocourt.Selftest.Restored.{IsClear}
use cryptocourt.Selftest.Exprs.{Consts, build}
use cryptocourt.Selftest.Anchors.{Call}
use cryptocourt.Selftest.Vacuity.{
  Vacuous, Audit, want_of, command_of, says_clean, audit_call, vacuity_audit,
}
use cryptocourt.Selftest.Run.{Source, owing, coverage, objections, all_failures, selftest}
use cryptocourt.Selftest.Restored.{run_arms_restores}
use cryptocourt.Selftest.Sensitive.{Fires, arms-Fire}
use cryptocourt.Selftest.Exercised.{exercises, exercised-arms}

keep-nil :
    {A : Type 0} (p : A → Bool) (xs : List A)
    → keep (λ x. not (p x)) xs ≡ []
    → All (λ x. p x ≡ true) xs
keep-nil p [] h = tt
keep-nil p (x ∷ xs) h = elim (Bool-cases (p x)) [
  | inl e ↦ (e, keep-nil p xs (rw (keep, e) at h))
  | inr e ↦ cc (rw (keep, e) at h)
]

objections-nil : (vs : List Vacuous) → objections vs ≡ [] → vs ≡ []
unfolding objections
objections-nil [] h = refl
objections-nil (v ∷ vs) h = cc h

-- Every guard that owes a control has been exercised, and the committed ones are known.
coverage-nil :
    (found : List Text) (tracked : Option (List Text)) (exercised : List Text)
    → coverage found tracked exercised ≡ []
    → All (λ g. text_in g exercised ≡ true) (owing found tracked)
unfolding coverage
coverage-nil found tracked exercised h =
    let (known, named) = append-eq-nil _ _ h in
    keep-nil (λ g. text_in g exercised) (owing found tracked) (map-eq-nil _ _ named)

module _ (run : Run) (root : Text) (consts : Consts) (repo : Repo) where
  -- The clean repository does not make the guard of a call say what the call wants.
  abbrev pub Silent : Call → Type 0
  Silent c =
      (want : Text) (argv : List Text)
      → want_of consts c.args ≡ some want
      → command_of consts c.argv ≡ some argv
      → says_clean run root consts repo want argv ≡ false

  audit-Silent :
      (c : Call) (rest : Audit)
      → (audit_call run root consts repo c rest).bad ≡ []
      → (rest.bad ≡ []) × Silent c
  unfolding audit_call
  audit-Silent c rest h = elim (Option-cases (want_of consts c.args)) [
    | inl e ↦ (rw (audit_call, e) at h, λ want argv w k. cc (w, e))
    | inr (want, e) ↦ elim (Option-cases (command_of consts c.argv)) [
      | inl f ↦ (rw (audit_call, e, f) at h, λ want argv w k. cc (k, f))
      | inr (argv, f) ↦ elim (Bool-cases (says_clean run root consts repo want argv)) [
        | inl says ↦ cc (rw (audit_call, e, f, says) at h)
        | inr quiet ↦ (
          rw (audit_call, e, f, quiet) at h,
          λ want' argv' w k.
              ap (λ t. says_clean run root consts repo t argv') (some_inj.0 (sym w ∙ e))
              ∙ ap (λ a. says_clean run root consts repo want a) (some_inj.0 (sym k ∙ f))
              ∙ quiet,
        )
      ]
    ]
  ]

  audits-Silent :
      (calls : List Call) → (vacuity_audit run root consts repo calls).bad ≡ [] → All Silent calls
  unfolding vacuity_audit
  audits-Silent [] h = tt
  audits-Silent (c ∷ calls) h =
      let (more, quiet) = audit-Silent c (vacuity_audit run root consts repo calls) h in
      (quiet, audits-Silent calls more)

module _ (run : Run) (root : Text) (prepended : Text → Text → Option Text) where
  failures_of :
      (found : List Text) (tracked : Option (List Text)) (source : Source) (arms : List Arm)
      (repo : Repo)
      → selftest run root prepended found tracked source arms repo ≡ 0
      → all_failures run root prepended found tracked source arms repo ≡ some []
  unfolding selftest
  failures_of found tracked source arms repo h =
      elim (Option-cases (all_failures run root prepended found tracked source arms repo)) [
        | inl e ↦ cc (rw (selftest, e) at h)
        | inr ([], e) ↦ e
        | inr (f ∷ fs, e) ↦ cc (rw (selftest, e) at h)
      ]

  -- A run that ends with 0, on a repository without a file where an arm puts its copy. Each arm's
  -- edit applied, and its script said on the edited repository what the arm wants; no guard says
  -- what a call of `control` wants of it on the repository as it is, where the audit can read the
  -- call; and every committed guard and every runner is named by some arm.
  pub selftest-Fires :
      (found : List Text) (tracked : Option (List Text)) (source : Source) (arms : List Arm)
      (repo : Repo)
      → All (IsClear root repo) arms
      → selftest run root prepended found tracked source arms repo ≡ 0
      → All (Fires run root prepended repo) arms
        × All (Silent run root (build source.body ((codes "REPO", root) ∷ [])) repo) source.calls
        × All (λ g. any (exercises g) arms ≡ true) (owing found tracked)
  unfolding all_failures
  selftest-Fires found tracked source arms repo clear h =
      let start : Session = record { failures = []; exercised = []; repo = repo } in
      let consts : Consts = build source.body ((codes "REPO", root) ∷ []) in
      let none_left = failures_of found tracked source arms repo h in
      elim (Option-cases (run_arms run root prepended arms start)) [
        | inl e ↦ cc (rw (all_failures, e) at none_left)
        | inr (s, e) ↦
            let (arms_clean, rest) =
              append-eq-nil s.failures _ (some_inj.0 (rw (all_failures, e) at none_left)) in
            let (covered, audited) = append-eq-nil (coverage found tracked s.exercised) _ rest in
            let kept : s.repo ≡ repo = run_arms_restores run root prepended arms start s clear e in
            let fired = (arms-Fire run root prepended arms start s clear e arms_clean).1 in
            let silent =
              audits-Silent run root consts s.repo source.calls (objections-nil _ audited) in
            (
              fired,
              subst (λ r. All (Silent run root consts r) source.calls) kept silent,
              All-map
                  (λ g (x : text_in g s.exercised ≡ true).
                    sym (exercised-arms run root prepended g arms start s e) ∙ x)
                  (owing found tracked) (coverage-nil found tracked s.exercised covered),
            )
      ]
