-- ===== src/Scenario/Latch.antt =====
-- The latch of the test clock (realm/r/kourtv2/testclock.gno), which the flags of
-- scripts/scenario.py stand for.
use mathlib.Core.List.{foldl}
use cryptocourt.Base.{
  ◌≡◌, ◌∙◌, Bool, true, false, ◌||◌, Option, none, some, List, [], ◌∷◌, arith, Option-cases, inl,
  inr, if◌then◌else◌,
}
use cryptocourt.Base.Text.{Text, codes, ◌=text◌, text_in}
use cryptocourt.Scenario.Step.{Step, call, deployer, init}
use cryptocourt.Scenario.Story.{Verb, run_story}
use cryptocourt.Scenario.Clock.{ClockState, followed_clock, flags, clock_after, run_story-Tracks}

-- `tcArmed`, `tcEverArmed` and `tcSealed` of the realm.
pub record Latch : Type 0 where
  pub armed : Bool
  pub ever : Bool
  pub sealed : Bool

-- The latch of a realm that has just been deployed.
abbrev pub fresh : Latch
fresh = record { armed = false; ever = false; sealed = false }

-- `EnableTestClock` and `EnableTestClockAt` behind the check of the caller: `none` is a panic.
unfoldable pub arm : Latch → Option Latch
arm l = if l.sealed || l.armed then none else some (record l { armed = true; ever = true })

-- `SealTestClock` behind the check of the caller.
unfoldable pub seal : Latch → Option Latch
seal l = if l.armed then some (record l { armed = false; sealed = true }) else none

-- `AdvanceTestClock` and `AdvanceTestHeight` behind the check of the caller.
unfoldable pub drive : Latch → Option Latch
drive l = if l.armed then some l else none

-- `mustDeployer`.
abbrev pub by_deployer : Text → Option Latch → Option Latch
by_deployer who done = if who =text deployer then done else none

-- What the realm's latch does in one transaction; `none` is a panic. The realm may panic for reasons
-- besides the latch and the caller (a realm in use, an instant out of range): those only make fewer
-- transactions succeed. A call that is expected to panic leaves the latch, as do reads and blocks.
unfoldable pub takes : Latch → Step → Option Latch
unfolding text_in arm seal drive
takes l (call who func args send note) =
    if text_in func (codes "EnableTestClock" ∷ codes "EnableTestClockAt" ∷ [])
    then by_deployer who (arm l)
    else if func =text codes "SealTestClock"
    then by_deployer who (seal l)
    else if text_in func (codes "AdvanceTestClock" ∷ codes "AdvanceTestHeight" ∷ [])
    then by_deployer who (drive l)
    else some l
takes l _ = some l

-- The latch after transactions none of which panics.
unfoldable pub latch_after : Latch → List Step → Option Latch
unfolding takes
latch_after l [] = some l
latch_after l (st ∷ steps) = elim (takes l st) [ none ↦ none | some l' ↦ latch_after l' steps ]

-- The two flags of the latch that the builder follows.
abbrev pub seen : Latch → ClockState
seen l = record { armed = l.armed; ever = l.ever }

takes-seen :
    (l : Latch) (st : Step) (l' : Latch)
    → takes l st ≡ some l'
    → followed_clock (seen l) st ≡ seen l'
unfolding takes followed_clock arm seal drive text_in
takes-seen l (call who func args send note) l' h = ground arith
takes-seen l _ l' h = ground arith

-- The first of several transactions that are all taken.
pub first_taken :
    (l : Latch) (st : Step) (steps : List Step) (l' : Latch)
    → latch_after l (st ∷ steps) ≡ some l'
    → (m : Latch) × (takes l st ≡ some m) × (latch_after m steps ≡ some l')
unfolding latch_after
first_taken l st steps l' h = elim (Option-cases (takes l st)) [
  | inl e ↦ absurd (ground (arith, rw (e, latch_after) at h))
  | inr (m, e) ↦ (m, e, rw (e, latch_after) at h)
]

latch_after-seen :
    (l : Latch) (steps : List Step) (l' : Latch)
    → latch_after l steps ≡ some l'
    → foldl followed_clock (seen l) steps ≡ seen l'
unfolding latch_after
latch_after-seen l [] l' h = ground arith
latch_after-seen l (st ∷ steps) l' h =
    let (m, first, rest) = first_taken l st steps l' h in
    rw (takes-seen l st m first) (latch_after-seen m steps l' rest)

-- Whatever a scenario module calls, and wherever it raises: if the realm's latch takes each recorded
-- transaction at its turn (the clock's functions are called by the deployer, it is armed only while
-- neither armed nor sealed, and advanced and sealed only while armed), then the flags
-- `_clock_armed` and `_clock_ever_armed` are `tcArmed` and `tcEverArmed` of the realm behind them.
pub run_story-seen :
    (reads : List Text) (vs : List Verb) (n preamble : Text) (l : Latch)
    → latch_after fresh (run_story reads vs (init n preamble)).1.steps ≡ some l
    → flags (run_story reads vs (init n preamble)).1 ≡ seen l
unfolding clock_after
run_story-seen reads vs n preamble l h =
    let scn = (run_story reads vs (init n preamble)).1 in
    (run_story-Tracks reads vs n preamble).agree ∙ latch_after-seen fresh scn.steps l h

-- A latch that was ever armed is armed or sealed.
abbrev pub IsSpent : Latch → Type 0
IsSpent l = l.ever ≡ (l.armed || l.sealed)

takes-IsSpent : (l : Latch) (st : Step) (l' : Latch) → takes l st ≡ some l' → IsSpent l → IsSpent l'
unfolding takes arm seal drive text_in
takes-IsSpent l (call who func args send note) l' h spent = ground arith
takes-IsSpent l _ l' h spent = ground arith

pub latch_after-IsSpent :
    (l : Latch) (steps : List Step) (l' : Latch)
    → latch_after l steps ≡ some l'
    → IsSpent l
    → IsSpent l'
unfolding latch_after
latch_after-IsSpent l [] l' h spent = ground arith
latch_after-IsSpent l (st ∷ steps) l' h spent =
    let (m, first, rest) = first_taken l st steps l' h in
    latch_after-IsSpent m steps l' rest (takes-IsSpent l st m first spent)
