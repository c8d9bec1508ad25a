-- ===== src/Selftest/Planted.antt =====
-- scripts/check-control-anchors.py: what an exit with 0 promises scripts/selftest-checks.py.
use cryptocourt.Base.{
  ◌≡◌, refl, ap, sym, ◌∙◌, true, Option, none, some, List, [], ◌∷◌, ◌++◌, All, inl, inr, ◌==◌,
}
use cryptocourt.Base.Tests.{Option-cases, Bool-cases}
use cryptocourt.Base.Text.{Text, count}
use cryptocourt.Selftest.Repo.{Repo, full_path}
use cryptocourt.Selftest.Arms.{
  Run, Control, Verdict, planted, control, complaint, command, stdin_of,
}
use cryptocourt.Selftest.Session.{Arm, Session, run_arms}
use cryptocourt.Selftest.Exprs.{Expr, Consts, ev}
use cryptocourt.Selftest.Anchors.{Call, Fault, plant_fault, call_fault, faults, check_anchors}
use cryptocourt.Selftest.Restored.{IsClear, control-once, run_arms_restores}

-- Whether a call of `control` is the one that an arm comes from: the path and the text to find are
-- those that the call's expressions evaluate to.
abbrev pub IsSite : Consts → Control → Call → Type 0
IsSite consts c call =
    (label : Expr) × (path : Expr) × (find : Expr) × (more : List Expr) × (call.args
      ≡ label ∷ path ∷ find ∷ more)
    × (ev consts path ≡ some c.path)
    × (ev consts find ≡ some c.find)

All-middle : {A : Type 0} (P : A → Type 0) (xs ys : List A) (y : A) → All P (xs ++ y ∷ ys) → P y
All-middle P [] ys y (h, _) = h
All-middle P (x ∷ xs) ys y (_, h) = All-middle P xs ys y h

module _ (root : Text) (consts : Consts) (repo : Repo) where
  plant-none :
      (path find : Text)
      → plant_fault root consts repo path find ≡ none
      → (src : Text) × (repo (full_path root path) ≡ some src) × ((count find src == 1) ≡ true)
  unfolding plant_fault
  plant-none path find h = elim (Option-cases (repo (full_path root path))) [
    | inl e ↦ cc (rw (plant_fault, e) at h)
    | inr (src, e) ↦ elim (Bool-cases (count find src == 1)) [
      | inl once ↦ (src, e, once)
      | inr other ↦ cc (rw (plant_fault, e, other) at h)
    ]
  ]

  call-none :
      (label path find : Expr) (more : List Expr) (p f : Text)
      → ev consts path ≡ some p
      → ev consts find ≡ some f
      → call_fault root consts repo (label ∷ path ∷ find ∷ more) ≡ plant_fault root consts repo p f
  unfolding call_fault
  call-none label path find more p f e g = rw (call_fault, e, g)

  faults-nil :
      (calls : List Call)
      → faults root consts repo calls ≡ []
      → All (λ (c : Call). call_fault root consts repo c.args ≡ none) calls
  unfolding faults
  faults-nil [] h = tt
  faults-nil (c ∷ calls) h = elim (Option-cases (call_fault root consts repo c.args)) [
    | inl e ↦ (e, faults-nil calls (rw (faults, e) at h))
    | inr (fault, e) ↦ cc (rw (faults, e) at h)
  ]

  check-zero :
      (calls : List Call)
      → check_anchors root consts repo calls ≡ 0
      → faults root consts repo calls ≡ []
  unfolding check_anchors
  check-zero [] h = refl
  check-zero (c ∷ calls) h = zero_faults (faults root consts repo (c ∷ calls)) refl
    where
      zero_faults :
          (fs : List (Call × Fault))
          → faults root consts repo (c ∷ calls) ≡ fs
          → faults root consts repo (c ∷ calls) ≡ []
      zero_faults [] e = e
      zero_faults (f ∷ fs) e = cc (rw (check_anchors, e) at h)

module _ (run : Run) (root : Text) (prepended : Text → Text → Option Text) where
  -- Where check-control-anchors.py exits with 0, no arm whose call it reads is broken when its turn
  -- comes: whatever arms run before, its file is there, the edit applies, and the verdict is that on
  -- its guard's output on the edited repository. No file stands where an earlier arm puts its copy.
  pub check_anchors-control :
      (consts : Consts) (repo : Repo) (left right : List Call) (call : Call) (c : Control)
      (before : List Arm) (s : Session)
      → check_anchors root consts repo (left ++ call ∷ right) ≡ 0
      → IsSite consts c call
      → All (IsClear root repo) before
      → run_arms run root prepended before (record { failures = []; exercised = []; repo = repo })
        ≡ some s
      → (src : Text) × ((control run root c s.repo).0
          ≡ complaint c.want (
              run
                (command c.argv)
                (stdin_of c.stdin)
                c.cwd
                (planted (full_path root c.path) c.find c.substitute src repo)))
  check_anchors-control consts repo left right call c before s ok
        (label, path, find, more, args, at_path, at_find) clear h =
      let start : Session = record { failures = []; exercised = []; repo = repo } in
      let kept : s.repo ≡ repo = run_arms_restores run root prepended before start s clear h in
      let sound =
        All-middle (λ (k : Call). call_fault root consts repo k.args ≡ none) left right call
          (faults-nil root consts repo _ (check-zero root consts repo _ ok)) in
      let planted_there = plant-none root consts repo c.path c.find (
        sym (call-none root consts repo label path find more c.path c.find at_path at_find)
        ∙ ap (λ k. call_fault root consts repo k) (sym args)
        ∙ sound) in
      (
        planted_there.0,
        ap (λ r. (control run root c r).0) kept
            ∙ ap (λ (v : Verdict × Repo). v.0)
                (control-once run root c repo planted_there.0 planted_there.1 planted_there.2),
      )
