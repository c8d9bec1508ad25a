-- ===== src/Scenario/Sound.antt =====
-- What every scenario satisfies that the methods can build: mining within the cap, assertions on
-- reads and refusals on writes, patterns that both engines read alike, remarks of one line, actors
-- with safe names.
use cryptocourt.Base.{
  ℕ, zero, suc, ◌+◌, ◌*◌, ◌≤◌, ◌<◌, ◌≡◌, refl, Bool, true, false, not, ◌||◌, Option, none, some,
  List, [], ◌∷◌, ◌++◌, map, arith, ltb, ◌==◌, any, All, All-append,
}
use cryptocourt.Base.Text.{Text, codes, ◌=text◌, text_in, newline}
use cryptocourt.Base.Int.{ℤ, pos, negsuc}
use cryptocourt.Base.Exec.{ok, try_map, Keeps, Keeps-bind}
use cryptocourt.Scenario.Step.{
  Step, call, refuse, expect, remark, mine, Value, str_value, deployer, mine_cap, block_secs,
  past_mine_cap, not_a_read, not_a_write, multiline_note, deployer_account, reserved_account,
  bad_account_name, Scenario, init, mined,
}
use cryptocourt.Scenario.Literal.{lit, portable_pattern, has_trap, is_actor_name}
use cryptocourt.Scenario.Builder.{
  account, arm_clock, advance, seal_clock, advance_height, mine_blocks, call_any, expect_read,
  expect_refuse, add_note, height_note, mine_note, mine_time,
}
use cryptocourt.Scenario.Guards.{Keeps-armed, Keeps-forward-bind, guard_at, lift_at}
use cryptocourt.Scenario.Story.{Act, Verb, perform, run_verb, run_story}
use cryptocourt.Scenario.Acts.{perform-Records}

module _ (reads : List Text) where
  -- What the emitters rely on, for one step.
  abbrev pub IsLawful : Step → Type 0
  IsLawful (call who func args send note) = Unit
  IsLawful (refuse who func args re note) = (text_in func reads ≡ false) × (has_trap re ≡ false)
  IsLawful (expect func args re note final) = (text_in func reads ≡ true) × (has_trap re ≡ false)
  IsLawful (remark text) = any (λ c. c == newline || c == b'\r') text ≡ false
  IsLawful (mine n note) = 0 < n

  -- An actor's name has the safe shape, and is neither of the two reserved names.
  abbrev pub IsActor : Text × ℤ → Type 0
  IsActor (n, ugnot) =
      (is_actor_name n ≡ true) × ((n =text deployer) ≡ false) × ((n =text codes "deployer") ≡ false)

  pub record IsSound (s : Scenario) : Type 0 where
    pub capped : mined s.steps ≤ mine_cap
    pub lawful : All IsLawful s.steps
    pub actors : All IsActor s.accounts

mined-append : (xs : List Step) (st : Step) → mined (xs ++ st ∷ []) ≡ mined xs + mined (st ∷ [])
unfolding mined
mined-append [] st = omega arith
mined-append (mine n w ∷ xs) st = omega (arith, mined-append xs st)
mined-append (call w f a b c ∷ xs) st = mined-append xs st
mined-append (refuse w f a b c ∷ xs) st = mined-append xs st
mined-append (expect f a b c d ∷ xs) st = mined-append xs st
mined-append (remark t ∷ xs) st = mined-append xs st

module _ (reads : List Text) where
  abbrev Sound : Scenario → Type 0
  Sound = IsSound reads

  -- One more lawful step keeps the invariant, if the blocks that it mines fit under the cap.
  IsSound-push :
      (s : Scenario) (st : Step) (s' : Scenario)
      → s'.steps ≡ s.steps ++ st ∷ []
      → s'.accounts ≡ s.accounts
      → IsLawful reads st
      → mined s.steps + mined (st ∷ []) ≤ mine_cap
      → Sound s
      → Sound s'
  IsSound-push s st s' e a law fits h = record {
    capped = rw (e, mined-append) fits;
    lawful = rw e (All-append (IsLawful reads) s.steps (st ∷ []) h.lawful (law, tt));
    actors = rw a h.actors;
  }

  perform-IsSound : (a : Act) → Keeps Sound (perform a)
  unfolding mined
  perform-IsSound a s h =
      let (who, func, args, send, e, q) = perform-Records a s in
      rw e (IsSound-push s (call who func args send []) _ refl refl tt (omega (arith, h.capped)) h)

  -- The same for a step that mines nothing.
  IsSound_plain :
      (s : Scenario) (st : Step) (s' : Scenario)
      → s'.steps ≡ s.steps ++ st ∷ []
      → s'.accounts ≡ s.accounts
      → IsLawful reads st
      → mined (st ∷ []) ≡ 0
      → Sound s
      → Sound s'
  IsSound_plain s st s' e a law none_mined h =
      IsSound-push s st s' e a law (omega (arith, h.capped, none_mined)) h

  arm_clock-IsSound : (at : Option ℤ) → Keeps Sound (arm_clock at)
  unfolding arm_clock mined
  arm_clock-IsSound none s h = IsSound_plain s _ (arm_clock none s).1 refl refl tt refl h
  arm_clock-IsSound (some at) s h = IsSound_plain s _ (arm_clock (some at) s).1 refl refl tt refl h

  seal_clock-IsSound : Keeps Sound seal_clock
  unfolding seal_clock mined
  seal_clock-IsSound s h = IsSound_plain s _ (seal_clock s).1 refl refl tt refl h

  call_any-IsSound :
      (who func : Text) (args : List Value) (send : Option Text) (note : Text)
      → Keeps Sound (call_any who func args send note)
  unfolding call_any mined
  call_any-IsSound who func args send note s h =
      IsSound_plain s (call who func (map str_value args) send note)
        (call_any who func args send note s).1 (ground arith) (ground arith) tt refl h

  advance-IsSound : (seconds : ℤ) (why : Text) → Keeps Sound (advance seconds why)
  unfolding advance mined
  advance-IsSound seconds why =
      Keeps-armed Sound _
        (Keeps-forward-bind Sound seconds _ λ n s h. IsSound_plain s _ _ refl refl tt refl h)

  advance_height-IsSound :
      (blocks : ℤ) (why : Text) (with_time : Bool)
      → Keeps Sound (advance_height blocks why with_time)
  unfolding advance_height mined
  advance_height-IsSound blocks why true = Keeps-armed Sound _ (
      Keeps-forward-bind Sound blocks _ λ n s h.
        advance-IsSound (pos (n * block_secs)) (height_note n) _
          (IsSound_plain s _ _ refl refl tt refl h))
  advance_height-IsSound blocks why false =
      Keeps-armed Sound _
        (Keeps-forward-bind Sound blocks _ λ n s h. IsSound_plain s _ _ refl refl tt refl h)

  mine_time-IsSound : (with_time : Bool) (n : ℕ) → Keeps Sound (mine_time with_time n)
  mine_time-IsSound true n s h =
      Keeps-armed Sound _ (advance-IsSound (pos (n * block_secs)) (mine_note n)) s h
  mine_time-IsSound false n s h = h

  mine_blocks-IsSound :
      (blocks : ℤ) (why : Text) (with_time : Bool) → Keeps Sound (mine_blocks blocks why with_time)
  unfolding mine_blocks mined
  mine_blocks-IsSound (pos (suc k)) why with_time s h =
      guard_at Sound (ltb mine_cap (suc k + mined s.steps)) past_mine_cap _ s h λ fits.
        mine_time-IsSound with_time (suc k) _
          (IsSound-push s (mine (suc k) why) _ refl refl (omega arith) (ground arith) h)
  mine_blocks-IsSound (pos zero) why with_time s h = h
  mine_blocks-IsSound (negsuc n) why with_time s h = h

  portable_pattern_lem : (pat re : Text) → portable_pattern pat ≡ ok re → has_trap re ≡ false
  unfolding portable_pattern
  portable_pattern_lem pat re h = ground arith

  expect_read-IsSound :
      (func : Text) (args : List Value) (pattern note : Text) (final : Bool)
      → Keeps Sound (expect_read reads func args pattern note final)
  unfolding expect_read mined
  expect_read-IsSound func args pattern note final s h =
      guard_at Sound (not (text_in func reads)) not_a_read _ s h λ read.
        lift_at Sound (try_map lit args) _ s h λ lits _.
          lift_at Sound (portable_pattern pattern) _ s h λ re e.
            IsSound_plain s (expect func lits re note final) _ refl refl
              (ground arith, portable_pattern_lem pattern re e) refl h

  expect_refuse-IsSound :
      (who func : Text) (args : List Value) (stderr note : Text)
      → Keeps Sound (expect_refuse reads who func args stderr note)
  unfolding expect_refuse mined
  expect_refuse-IsSound who func args stderr note s h =
      guard_at Sound (text_in func reads) not_a_write _ s h λ write.
        lift_at Sound (portable_pattern stderr) _ s h λ re e.
          IsSound_plain s (refuse who func (map str_value args) re note) _ refl refl
            (write, portable_pattern_lem stderr re e) refl h

  add_note-IsSound : (text : Text) → Keeps Sound (add_note text)
  unfolding add_note mined
  add_note-IsSound text s h =
      guard_at Sound (any (λ c. c == newline || c == b'\r') text) multiline_note _ s h
        λ plain. IsSound_plain s (remark text) _ refl refl plain refl h

  account-IsSound : (n : Text) (ugnot : ℤ) → Keeps Sound (account n ugnot)
  unfolding account
  account-IsSound n ugnot s h = guard_at Sound (n =text deployer) deployer_account _ s h λ other.
      guard_at Sound (n =text codes "deployer") reserved_account _ s h λ free.
        guard_at Sound (not (is_actor_name n)) bad_account_name _ s h λ shaped. record {
          capped = h.capped;
          lawful = h.lawful;
          actors =
              All-append (IsActor reads) s.accounts ((n, ugnot) ∷ []) h.actors
                ((ground arith, other, free), tt);
        }

  run_verb-IsSound : (v : Verb) → Keeps Sound (run_verb reads v)
  unfolding run_verb
  run_verb-IsSound (Verb.account n ugnot) =
      Keeps-bind Sound (account n ugnot) _ (account-IsSound n ugnot) (λ _ s h. h)
  run_verb-IsSound (Verb.arm at) = arm_clock-IsSound at
  run_verb-IsSound (Verb.advance seconds why) = advance-IsSound seconds why
  run_verb-IsSound Verb.seal = seal_clock-IsSound
  run_verb-IsSound (Verb.raise_height blocks why with_time) =
      advance_height-IsSound blocks why with_time
  run_verb-IsSound (Verb.mine blocks why with_time) = mine_blocks-IsSound blocks why with_time
  run_verb-IsSound (Verb.act a) = perform-IsSound a
  run_verb-IsSound (Verb.call who func args send note) = call_any-IsSound who func args send note
  run_verb-IsSound (Verb.expect func args pattern note final) =
      expect_read-IsSound func args pattern note final
  run_verb-IsSound (Verb.refuse who func args stderr note) =
      expect_refuse-IsSound who func args stderr note
  run_verb-IsSound (Verb.remark text) = add_note-IsSound text

  run_story_from-IsSound : (vs : List Verb) → Keeps Sound (run_story reads vs)
  unfolding run_story
  run_story_from-IsSound [] s h = h
  run_story_from-IsSound (v ∷ vs) s h =
      Keeps-bind Sound (run_verb reads v) _ (run_verb-IsSound v) (λ _. run_story_from-IsSound vs) s
        h

-- Whatever a scenario module calls, and wherever it raises: at most `mine_cap` blocks are mined,
-- every assertion is on a read and every refusal on a function that is no read, their patterns hold
-- none of the dialect traps, a remark is one line, a mining step mines, and every actor's name
-- matches the pattern and is neither the harness's key nor `deployer`.
pub run_story-IsSound :
    (reads : List Text) (vs : List Verb) (n preamble : Text)
    → IsSound reads (run_story reads vs (init n preamble)).1
unfolding init mined
run_story-IsSound reads vs n preamble =
    run_story_from-IsSound reads vs (init n preamble)
      (record { capped = omega arith; lawful = tt; actors = tt })
