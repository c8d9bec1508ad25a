-- ===== src/Selftest/Session.antt =====
-- scripts/selftest-checks.py: `inject`, `_lockcase` and `rootcase`, and the arms in their order.
-- `prepended` are the rows of an arm in front of those of a corpus, as JSON; `none` where the corpus
-- is no JSON list.
use cryptocourt.Base.{Bool, Option, none, some, List, [], ◌∷◌, ◌++◌, if◌then◌else◌}
use cryptocourt.Base.Text.{Text, codes}
use cryptocourt.Selftest.Repo.{Repo, write, move, full_path, backup_of}
use cryptocourt.Selftest.Arms.{
  inherited, Run, Control, Verdict, heard, is_fired, command, scripts_of, control, feed,
}

-- The corpus with the rows in front, and the copy beside it.
unfoldable pub planted_corpus : (corpus text src : Text) → Repo → Repo
unfolding write backup_of
planted_corpus corpus text src repo = write corpus text (write (backup_of corpus) src repo)

module _ (run : Run) (root : Text) where
  -- The mutations-kourtv2.json arms of check-mutation-anchors.py.
  unfoldable pub inject :
      (prepended : Text → Text → Option Text) → (rows want : Text) → Repo → Option (Verdict × Repo)
  unfolding full_path move planted_corpus heard
  inject prepended rows want repo =
      let corpus = full_path root (codes "scripts/mutations-kourtv2.json") in
      elim (repo corpus) [
        | none ↦ none
        | some src ↦ elim (prepended rows src) [
          | none ↦ none
          | some text ↦ some (
            heard want (
                run (codes "python3" ∷ codes "scripts/check-mutation-anchors.py" ∷ []) inherited
                  none (planted_corpus corpus text src repo)),
            move (backup_of corpus) corpus (planted_corpus corpus text src repo),
          )
        ]
      ]

-- An arm: the calls of the module, in their order. `checked` is `_lockcase` or `rootcase`, with the
-- script that it marks as exercised.
pub data Arm : Type 0 where
  on_file : Control → Arm
  on_batch : (label spec want : Text) → Arm
  on_corpus : (label rows want : Text) → Arm
  checked : (script label : Text) → Bool → Arm

-- What the arms leave: the failures, the scripts that were exercised and the repository.
pub record Session : Type 0 where
  pub failures : List Text
  pub exercised : List Text
  pub repo : Repo

unfoldable pub noted : Text → Verdict → List Text
unfolding is_fired
noted label v = if is_fired v then [] else label ∷ []

module _ (run : Run) (root : Text) (prepended : Text → Text → Option Text) where
  -- One arm; `none` where it raises.
  unfoldable pub run_arm : Arm → Session → Option Session
  unfolding control feed inject noted scripts_of command
  run_arm (on_file c) s =
      let v = control run root c s.repo in
      some (record {
        failures = s.failures ++ noted c.label v.0;
        exercised = s.exercised ++ scripts_of (command c.argv);
        repo = v.1;
      })
  run_arm (on_batch label spec want) s =
      some (record s { failures = s.failures ++ noted label (feed run root spec want s.repo) })
  run_arm (on_corpus label rows want) s = elim (inject run root prepended rows want s.repo) [
    | none ↦ none
    | some v ↦ some (record {
      failures = s.failures ++ noted label v.0;
      exercised = s.exercised ++ codes "check-mutation-anchors.py" ∷ [];
      repo = v.1;
    })
  ]
  run_arm (checked script label ok) s = some (record s {
    failures = s.failures ++ (if ok then [] else label ∷ []);
    exercised = s.exercised ++ script ∷ [];
  })

  unfoldable pub run_arms : List Arm → Session → Option Session
  unfolding run_arm
  run_arms [] s = some s
  run_arms (a ∷ arms) s = elim (run_arm a s) [ none ↦ none | some s' ↦ run_arms arms s' ]
