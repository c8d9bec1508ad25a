-- ===== src/Scenario/Clock.antt =====
-- scripts/scenario.py: the flags of the clock follow the recorded steps by the names of their functions.
use mathlib.Core.List.{foldl, foldl-append}
use cryptocourt.Base.{
  ℕ, ◌≡◌, refl, ap, sym, ◌∙◌, ◌+◌, ◌*◌, ltb, Bool, true, false, Option, none, some, List, [], ◌∷◌,
  ◌++◌, map, arith, if◌then◌else◌,
}
use cryptocourt.Base.Text.{Text, codes, ◌=text◌, text_in}
use cryptocourt.Base.Int.{ℤ, pos}
use cryptocourt.Base.Exec.{try_map, Keeps, Keeps-bind, Keeps-continue, Keeps-raise_if}
use cryptocourt.Scenario.Step.{
  Step, call, refuse, expect, remark, mine, Value, str_value, Scenario, init, mined, mine_cap,
  past_mine_cap, block_secs,
}
use cryptocourt.Scenario.Literal.{lit, portable_pattern}
use cryptocourt.Scenario.Builder.{
  account, arm_clock, advance, seal_clock, advance_height, mine_blocks, call_any, expect_read,
  expect_refuse, add_note, height_note, mine_note, mine_time, check_cap,
}
use cryptocourt.Scenario.Guards.{Keeps-armed, Keeps-guarded, Keeps-forward-bind}
use cryptocourt.Scenario.Story.{Act, Verb, perform, run_verb, run_story}
use cryptocourt.Scenario.Acts.{Quiet, push, perform-Records}

-- The two flags: whether the clock is armed, and whether it ever was.
pub record ClockState : Type 0 where
  pub armed : Bool
  pub ever : Bool

-- How the flags follow one transaction: by the name of the function that it calls, whoever calls it.
unfoldable pub followed_clock : ClockState → Step → ClockState
unfolding text_in
followed_clock c (call who func args send note) =
    if text_in func (codes "EnableTestClock" ∷ codes "EnableTestClockAt" ∷ [])
    then record { armed = true; ever = true }
    else if func =text codes "SealTestClock"
    then record c { armed = false }
    else c
followed_clock c _ = c

-- The flags that follow from all the steps.
unfoldable pub clock_after : List Step → ClockState
unfolding followed_clock
clock_after = foldl followed_clock (record { armed = false; ever = false })

abbrev pub flags : Scenario → ClockState
flags s = record { armed = s.clock_armed; ever = s.clock_ever_armed }

-- The flags are those that follow from the recorded steps.
pub record Tracks (s : Scenario) : Type 0 where
  pub agree : flags s ≡ clock_after s.steps

-- A step that is appended while the flags move as they follow the step.
Tracks-append :
    (s : Scenario) (st : Step) (s' : Scenario)
    → s'.steps ≡ s.steps ++ st ∷ []
    → flags s' ≡ followed_clock (flags s) st
    → Tracks s
    → Tracks s'
unfolding clock_after
Tracks-append s st s' appended moved h =
    let start : ClockState = record { armed = false; ever = false } in
    record {
      agree =
          moved
          ∙ ap (λ c. followed_clock c st) h.agree
          ∙ sym (foldl-append followed_clock start s.steps (st ∷ []))
          ∙ ap clock_after (sym appended);
    }

followed_clock-Quiet :
    (c : ClockState) (who func : Text) (args : List Text) (send : Option Text) (note : Text)
    → Quiet func
    → c ≡ followed_clock c (call who func args send note)
unfolding followed_clock text_in
followed_clock-Quiet c who func args send note q = ground arith

Tracks-push :
    (s : Scenario) (st : Step)
    → flags s ≡ followed_clock (flags s) st
    → Tracks s
    → Tracks (push s st)
Tracks-push s st same h = Tracks-append s st (push s st) refl same h

perform-Tracks : (a : Act) → Keeps Tracks (perform a)
perform-Tracks a s h =
    let (who, func, args, send, e, q) = perform-Records a s in
    rw e (
      Tracks-push s (call who func args send [])
        (followed_clock-Quiet (flags s) who func args send [] q) h)

arm_clock-Tracks : (at : Option ℤ) → Keeps Tracks (arm_clock at)
unfolding arm_clock followed_clock codes
arm_clock-Tracks none s h = Tracks-append s _ (arm_clock none s).1 refl refl h
arm_clock-Tracks (some at) s h = Tracks-append s _ (arm_clock (some at) s).1 refl refl h

seal_clock-Tracks : Keeps Tracks seal_clock
unfolding seal_clock followed_clock codes
seal_clock-Tracks s h = Tracks-append s _ (seal_clock s).1 refl refl h

call_any-Tracks :
    (who func : Text) (args : List Value) (send : Option Text) (note : Text)
    → Keeps Tracks (call_any who func args send note)
unfolding call_any followed_clock
call_any-Tracks who func args send note s h =
    Tracks-append s (call who func (map str_value args) send note)
      (call_any who func args send note s).1 (ground arith) (ground arith) h

advance-Tracks : (seconds : ℤ) (why : Text) → Keeps Tracks (advance seconds why)
unfolding advance followed_clock codes
advance-Tracks seconds why =
    Keeps-armed Tracks _
      (Keeps-forward-bind Tracks seconds _ λ n s h. Tracks-append s _ _ refl refl h)

advance_height-Tracks :
    (blocks : ℤ) (why : Text) (with_time : Bool)
    → Keeps Tracks (advance_height blocks why with_time)
unfolding advance_height followed_clock codes
advance_height-Tracks blocks why true = Keeps-armed Tracks _ (
    Keeps-forward-bind Tracks blocks _ λ n s h.
      advance-Tracks (pos (n * block_secs)) (height_note n) _ (Tracks-append s _ _ refl refl h))
advance_height-Tracks blocks why false =
    Keeps-armed Tracks _
      (Keeps-forward-bind Tracks blocks _ λ n s h. Tracks-append s _ _ refl refl h)

mine_time-Tracks : (with_time : Bool) (n : ℕ) → Keeps Tracks (mine_time with_time n)
mine_time-Tracks true n s h =
    Keeps-armed Tracks _ (advance-Tracks (pos (n * block_secs)) (mine_note n)) s h
mine_time-Tracks false n s h = h

mine_blocks-Tracks :
    (blocks : ℤ) (why : Text) (with_time : Bool) → Keeps Tracks (mine_blocks blocks why with_time)
unfolding mine_blocks followed_clock
mine_blocks-Tracks blocks why with_time = Keeps-forward-bind Tracks blocks _ λ n.
    Keeps-bind Tracks (check_cap n) _
      (λ s. Keeps-raise_if Tracks (ltb mine_cap (n + mined s.steps)) past_mine_cap s)
      λ _ s h. mine_time-Tracks with_time n _ (Tracks-push s (mine n why) refl h)

module _ (reads : List Text) where
  expect_read-Tracks :
      (func : Text) (args : List Value) (pattern note : Text) (final : Bool)
      → Keeps Tracks (expect_read reads func args pattern note final)
  unfolding expect_read followed_clock
  expect_read-Tracks func args pattern note final = Keeps-guarded Tracks _ _ _ (
      Keeps-continue Tracks (try_map lit args) _ λ lits.
        Keeps-continue Tracks (portable_pattern pattern) _
          λ re s h. Tracks-push s (expect func lits re note final) refl h)

  expect_refuse-Tracks :
      (who func : Text) (args : List Value) (stderr note : Text)
      → Keeps Tracks (expect_refuse reads who func args stderr note)
  unfolding expect_refuse followed_clock
  expect_refuse-Tracks who func args stderr note = Keeps-guarded Tracks _ _ _ (
      Keeps-continue Tracks (portable_pattern stderr) _
        λ re s h. Tracks-push s (refuse who func (map str_value args) re note) refl h)

add_note-Tracks : (text : Text) → Keeps Tracks (add_note text)
unfolding add_note followed_clock
add_note-Tracks text = Keeps-guarded Tracks _ _ _ λ s h. Tracks-push s (remark text) refl h

-- An actor changes neither the flags nor the steps.
account-flags : (n : Text) (ugnot : ℤ) (s : Scenario) → flags (account n ugnot s).1 ≡ flags s
unfolding account
account-flags n ugnot s = ground arith

account-steps : (n : Text) (ugnot : ℤ) (s : Scenario) → (account n ugnot s).1.steps ≡ s.steps
unfolding account
account-steps n ugnot s = ground arith

account-Tracks : (n : Text) (ugnot : ℤ) → Keeps Tracks (account n ugnot)
account-Tracks n ugnot s h = record {
  agree = account-flags n ugnot s ∙ h.agree ∙ ap clock_after (sym (account-steps n ugnot s));
}

module _ (reads : List Text) where
  run_verb-Tracks : (v : Verb) → Keeps Tracks (run_verb reads v)
  unfolding run_verb
  run_verb-Tracks (Verb.account n ugnot) =
      Keeps-bind Tracks (account n ugnot) _ (account-Tracks n ugnot) (λ _ s h. h)
  run_verb-Tracks (Verb.arm at) = arm_clock-Tracks at
  run_verb-Tracks (Verb.advance seconds why) = advance-Tracks seconds why
  run_verb-Tracks Verb.seal = seal_clock-Tracks
  run_verb-Tracks (Verb.raise_height blocks why with_time) =
      advance_height-Tracks blocks why with_time
  run_verb-Tracks (Verb.mine blocks why with_time) = mine_blocks-Tracks blocks why with_time
  run_verb-Tracks (Verb.act a) = perform-Tracks a
  run_verb-Tracks (Verb.call who func args send note) = call_any-Tracks who func args send note
  run_verb-Tracks (Verb.expect func args pattern note final) =
      expect_read-Tracks reads func args pattern note final
  run_verb-Tracks (Verb.refuse who func args stderr note) =
      expect_refuse-Tracks reads who func args stderr note
  run_verb-Tracks (Verb.remark text) = add_note-Tracks text

  run_story_from-Tracks : (vs : List Verb) → Keeps Tracks (run_story reads vs)
  unfolding run_story
  run_story_from-Tracks [] s h = h
  run_story_from-Tracks (v ∷ vs) s h =
      Keeps-bind Tracks (run_verb reads v) _ (run_verb-Tracks v) (λ _. run_story_from-Tracks vs) s h

pub run_story-Tracks :
    (reads : List Text) (vs : List Verb) (n preamble : Text)
    → Tracks (run_story reads vs (init n preamble)).1
unfolding clock_after init
run_story-Tracks reads vs n preamble =
    run_story_from-Tracks reads vs (init n preamble) (record { agree = refl })
