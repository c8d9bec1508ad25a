-- ===== src/Scenario/Acts.antt =====
-- What the realm's verbs record: each returns, and appends one transaction, on a function of the
-- realm that is not one of the test clock's.
use cryptocourt.Base.{◌≡◌, refl, false, Option, none, some, List, [], ◌∷◌, ◌++◌}
use cryptocourt.Base.Text.{Text, codes, text_in}
use cryptocourt.Base.Exec.{ok}
use cryptocourt.Scenario.Step.{Step, call, Scenario}
use cryptocourt.Scenario.Story.{Act, court, claim, perform}

-- The functions that move the realm's clock.
abbrev pub clock_functions : List Text
clock_functions =
    codes "EnableTestClock"
    ∷ codes "EnableTestClockAt"
    ∷ codes "SealTestClock"
    ∷ codes "AdvanceTestClock"
    ∷ codes "AdvanceTestHeight"
    ∷ []

abbrev pub Quiet : Text → Type 0
Quiet func = text_in func clock_functions ≡ false

abbrev pub push : Scenario → Step → Scenario
push s st = record s { steps = s.steps ++ st ∷ [] }

-- The scenario, after one quiet transaction.
abbrev pub Records : Act → Scenario → Type 0
Records a s =
    (who : Text) × (func : Text) × (args : List Text) × (send : Option Text) × (perform a s
      ≡ (ok tt, push s (call who func args send [])))
    × Quiet func

pub perform-Records : (a : Act) (s : Scenario) → Records a s
unfolding perform codes text_in
perform-Records (court who slug name none) s = (_, _, _, _, refl, refl)
perform-Records (court who slug name (some polish)) s = (_, _, _, _, refl, refl)
perform-Records (claim who slug title body (it ∷ media)) s = (_, _, _, _, refl, refl)
perform-Records (claim who slug title (c ∷ body) []) s = (_, _, _, _, refl, refl)
perform-Records (claim who slug title [] []) s = (_, _, _, _, refl, refl)
perform-Records _ s = (_, _, _, _, refl, refl)
