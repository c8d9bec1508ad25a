-- ===== src/Selftest/Exercised.antt =====
-- scripts/selftest-checks.py: the scripts that the arms exercise.
use mathlib.Core.Option.{some_inj}
use cryptocourt.Base.{
  ◌≡◌, refl, ap, sym, ◌∙◌, Bool, true, false, ◌||◌, Option, some, List, [], ◌∷◌, any, inl, inr,
  any-append,
}
use cryptocourt.Base.Tests.{Option-cases}
use cryptocourt.Base.Text.{Text, codes, ◌=text◌, text_in}
use cryptocourt.Selftest.Arms.{Run, command, scripts_of}
use cryptocourt.Selftest.Session.{
  inject, Arm, on_file, on_batch, on_corpus, checked, Session, run_arm, run_arms,
}

-- Whether an arm names a script as one that it exercises.
abbrev pub exercises : Text → Arm → Bool
exercises g (on_file c) = text_in g (scripts_of (command c.argv))
exercises g (on_batch label spec want) = false
exercises g (on_corpus label rows want) = text_in g (codes "check-mutation-anchors.py" ∷ [])
exercises g (checked script label good) = text_in g (script ∷ [])

or_assoc : (a b c : Bool) → ((a || b) || c) ≡ (a || (b || c))
or_assoc true b c = refl
or_assoc false b c = refl

or-false : (a : Bool) → a ≡ (a || false)
or-false true = refl
or-false false = refl

module _ (run : Run) (root : Text) (prepended : Text → Text → Option Text) where
  exercised-arm :
      (g : Text) (a : Arm) (s s' : Session)
      → run_arm run root prepended a s ≡ some s'
      → text_in g s'.exercised ≡ (text_in g s.exercised || exercises g a)
  unfolding run_arm text_in
  exercised-arm g (on_file c) s s' h =
      ap (λ (r : Session). text_in g r.exercised) (sym (some_inj.0 h))
      ∙ any-append (λ t. g =text t) s.exercised _
  exercised-arm g (on_batch label spec want) s s' h =
      ap (λ (r : Session). text_in g r.exercised) (sym (some_inj.0 h))
      ∙ or-false (text_in g s.exercised)
  exercised-arm g (checked script label good) s s' h =
      ap (λ (r : Session). text_in g r.exercised) (sym (some_inj.0 h))
      ∙ any-append (λ t. g =text t) s.exercised _
  exercised-arm g (on_corpus label rows want) s s' h =
      elim (Option-cases (inject run root prepended rows want s.repo)) [
        | inl e ↦ cc (rw (run_arm, e) at h)
        | inr (v, e) ↦
            ap (λ (r : Session). text_in g r.exercised) (sym (some_inj.0 (rw (run_arm, e) at h)))
            ∙ any-append (λ t. g =text t) s.exercised _
      ]

  pub exercised-arms :
      (g : Text) (arms : List Arm) (s s' : Session)
      → run_arms run root prepended arms s ≡ some s'
      → text_in g s'.exercised ≡ (text_in g s.exercised || any (exercises g) arms)
  unfolding run_arms
  exercised-arms g [] s s' h =
      ap (λ (r : Session). text_in g r.exercised) (sym (some_inj.0 h))
      ∙ or-false (text_in g s.exercised)
  exercised-arms g (a ∷ arms) s s' h = elim (Option-cases (run_arm run root prepended a s)) [
    | inl e ↦ cc (rw (run_arms, e) at h)
    | inr (t, e) ↦
        exercised-arms g arms t s' (rw (run_arms, e) at h)
        ∙ ap (λ b. b || any (exercises g) arms) (exercised-arm g a s t e)
        ∙ or_assoc (text_in g s.exercised) (exercises g a) (any (exercises g) arms)
  ]
