-- ===== src/Scenario/Builder.antt =====
-- scripts/scenario.py: the methods of `Scenario`. Each is an action on the scenario's state that may
-- raise. The set of names that `_realm_reads` finds in the realm's source is the parameter `reads`.
use cryptocourt.Base.{
  ℕ, suc, ◌+◌, ◌*◌, Bool, true, false, ◌||◌, Option, none, some, List, [], ◌∷◌, ◌++◌, map, any, not,
  ltb, if◌then◌else◌, ◌==◌,
}
use cryptocourt.Base.Text.{Text, codes, ◌=text◌, text_in, newline}
use cryptocourt.Base.Decimal.{str_nat}
use cryptocourt.Base.Int.{ℤ, pos, str_int}
use cryptocourt.Base.Exec.{try_map, Exec, pure, raise, raise_if, lift, modify, ◌>>=◌, ◌>>◌}
use cryptocourt.Scenario.Step.{
  deployer, mine_cap, block_secs, Value, str_value, Step, call, refuse, expect, remark, mine,
  BuildError, deployer_account, reserved_account, bad_account_name, clock_not_armed, not_forward,
  past_mine_cap, not_a_read, not_a_write, multiline_note, Scenario, mined,
}
use cryptocourt.Scenario.Literal.{portable_pattern, lit, is_actor_name, grouped}

abbrev pub Method : Type 0 → Type 0
Method A = Exec Scenario BuildError A

abbrev pub append_step : Step → Method (Unit {0})
append_step st = modify λ s. record s { steps = s.steps ++ st ∷ [] }

-- `n` if it is above 0, else the raise of `not_forward`.
abbrev pub forward : ℤ → Method ℕ
forward (pos (suc n)) = pure (suc n)
forward _ = raise not_forward

unfoldable pub call_step : Text → Text → List Text → Option Text → Text → Method (Unit {0})
call_step who func args send note = append_step (call who func args send note)

unfoldable pub account : Text → ℤ → Method Text
account n ugnot = do
  raise_if (n =text deployer) deployer_account
  raise_if (n =text codes "deployer") reserved_account
  raise_if (not (is_actor_name n)) bad_account_name
  modify (λ s. record s { accounts = s.accounts ++ (n, ugnot) ∷ [] })
  pure n

abbrev enable_args : Option ℤ → Text × List Text
enable_args none = (codes "EnableTestClock", [])
enable_args (some at) = (codes "EnableTestClockAt", str_int at ∷ [])

unfoldable pub arm_clock : Option ℤ → Method (Unit {0})
unfolding call_step
arm_clock at = do
  call_step deployer (enable_args at).0 (enable_args at).1 none []
  modify (λ s. record s { clock_armed = true; clock_ever_armed = true })

abbrev pub require_armed : Method (Unit {0})
require_armed s = raise_if (not s.clock_armed) clock_not_armed s

unfoldable pub advance : ℤ → Text → Method (Unit {0})
unfolding call_step
advance seconds why = do
  require_armed
  n ← forward seconds
  call_step deployer (codes "AdvanceTestClock") (str_nat n ∷ []) none why
  modify (λ s. record s { advanced = s.advanced + n })

unfoldable pub seal_clock : Method (Unit {0})
unfolding call_step
seal_clock = do
  call_step deployer (codes "SealTestClock") [] none []
  modify (λ s. record s { clock_armed = false })

unfoldable pub height_note : ℕ → Text
height_note n =
    codes "the same "
    ++ (grouped n ++ codes " blocks on the wall clock, which is what a vote actually closes on")

abbrev pub advance_with : Bool → ℕ → Text → Method (Unit {0})
advance_with false n why = pure tt
advance_with true n why = advance (pos (n * block_secs)) why

unfoldable pub advance_height : ℤ → Text → Bool → Method (Unit {0})
unfolding call_step
advance_height blocks why with_time = do
  require_armed
  n ← forward blocks
  call_step deployer (codes "AdvanceTestHeight") (str_nat n ∷ []) none why
  modify (λ s. record s { advanced_height = s.advanced_height + n })
  advance_with with_time n (height_note n)

unfoldable pub mine_note : ℕ → Text
mine_note n = grouped n ++ codes " blocks of chain time, so dates track heights"

abbrev pub check_cap : ℕ → Method (Unit {0})
check_cap n s = raise_if (ltb mine_cap (n + mined s.steps)) past_mine_cap s

abbrev pub mine_time : Bool → ℕ → Method (Unit {0})
mine_time false n = pure tt
mine_time true n = do require_armed; advance (pos (n * block_secs)) (mine_note n)

-- The step is appended before the clock is looked at.
unfoldable pub mine_blocks : ℤ → Text → Bool → Method (Unit {0})
mine_blocks blocks why with_time = do
  n ← forward blocks
  check_cap n
  append_step (mine n why)
  mine_time with_time n

abbrev arms : Text → Bool
arms func = text_in func (codes "EnableTestClock" ∷ codes "EnableTestClockAt" ∷ [])

-- What `call` does to the two flags of the clock.
unfoldable pub track_clock : Text → Scenario → Scenario
track_clock func s =
    if arms func
    then record s { clock_armed = true; clock_ever_armed = true }
    else if func =text codes "SealTestClock"
    then record s { clock_armed = false }
    else s

unfoldable pub call_any : Text → Text → List Value → Option Text → Text → Method (Unit {0})
unfolding call_step track_clock
call_any who func args send note = do
  modify (track_clock func)
  call_step who func (map str_value args) send note

module _ (reads : List Text) where
  unfoldable pub expect_read : Text → List Value → Text → Text → Bool → Method (Unit {0})
  expect_read func args pattern note final = do
    raise_if (not (text_in func reads)) not_a_read
    lits ← lift (try_map lit args)
    re ← lift (portable_pattern pattern)
    append_step (expect func lits re note final)

  unfoldable pub expect_refuse : Text → Text → List Value → Text → Text → Method (Unit {0})
  expect_refuse who func args stderr note = do
    raise_if (text_in func reads) not_a_write
    re ← lift (portable_pattern stderr)
    append_step (refuse who func (map str_value args) re note)

unfoldable pub add_note : Text → Method (Unit {0})
add_note text = do
  raise_if (any (λ c. c == newline || c == b'\r') text) multiline_note
  append_step (remark text)
